-- ===== src/Lib.antt =====
-- libppcemu is a C library that emulates the PowerPC 750 family. One `struct _ppcemu_state`
-- (src/state.h) holds a processor; the run loop fetches an instruction, the decoder calls its `do_*`
-- function, and those call the helpers modelled here: the condition register, exception entry, address
-- translation and the caches, which reach memory through the bus hook of the application.
--
-- State.antt is the state record, a C array being a function of its index. Each `do_*` function is a
-- function from `State` to `State` of the same name, with the instruction's fields in the order of the C
-- parameters. A word is a native number with its wrap-around written out.
--   Bus: the application's hook (include/ppcemu/types.h), a parameter of the model, and the log of the
--     accesses made through it. `ram` of Cache/Ram is what that log leaves in plain memory.
--   Cache, with Cache/Data and Cache/Maintain: src/cache.c. A `struct cacheline *` is a slot number, and
--     an operation takes and returns the cache with its bus. Cache/Coherent is the invariant and `view`
--     of Cache/Ram the abstract memory; Lookup, Access, Transparent, Store, Zero, Drain, SingleLine,
--     Snoop, SnoopView and Contract are the proofs, and Cache/Trace sequences of operations. A bus hook that is memory is a hypothesis, `IsRam`.
--   Spr: register numbers and bits of src/spr.h, src/spr.c, src/caps.h and include/ppcemu.
--   Cr, Exception, Arith, MulDiv, Bitwise, Cond, Branch: src/cr.h, src/exception.h, src/instr/arith.c
--     (two modules), src/instr/bitwise.c, src/instr/cond.c and src/instr/branch.c, with their proofs in
--     child modules. `Effect` of Arith/Effect is the shape that the instructions with OE and Rc share.
--   Mmu: src/mem.c, src/mem.h, src/tlb.h and src/instr/segmentreg.c. Mmu/Fast is the inline access of
--     src/mem.h that hits the micro-TLB and a cached line, Mmu/Frame and Mmu/Faults what an access leaves
--     alone and how it ends.
--   SprMove: src/instr/spr.c and src/instr/msr.c. The labels that share a body are one constructor.
--   LoadStore: src/instr/loadstore.c; LoadStore/Update the inline forms of src/instr.h, and
--     LoadStore/Multiple the instructions on several registers and on strings.
--   CacheOps: src/instr/cache.c.
--   Decode: src/decode.c, with the fields of src/decode.h. Decode/Exec is the switch; a dispatch table is the
--     list of its rows that are not `do_illegal`. The handlers of the floating-point unit are an argument of
--     the switch; `float_exec` of Decode/FloatUnit is that argument. Decode/FpOff says
--     what they do while the unit is off.
--   Float, Paired: src/instr/floating_point.c, src/instr/paired_singles.c and src/fp.h. A `float` or `double` is
--     its bit pattern; the arithmetic, comparisons and conversions of the host on patterns are the
--     record `HostFloat`, a parameter. Float/Access chains the accesses of an instruction, each of which
--     may fail. A register in paired-single form has lane 0 in the upper half of its pattern.
--   Run: src/run.c. The decoder is an argument, for which `decode_exec` is one; Run/Trap puts them together.
--   Public: src/state.c; Public/Throttle is its throttle to real time, with readings of the host clock as
--     arguments and the sleep as a result, and Public/LogLevel the log levels. Public/Reset is
--     src/init.c and the creation of the caches in src/cache.c, with the allocator's answers as arguments.
--   Tests: concrete states, and each theorem with hypotheses applied to them.
--
-- Loops are structural recursion on the number of rounds that the C loop makes: 32 digits, 8 mask bits, 8
-- table entries, the lines of a cache, the bytes of an access or a string, the registers left to
-- r31. `dcache_snoop` computes its number of rounds from the distance of the first line to the last, and
-- more rounds change nothing.
--
-- The low-power steps run `ppcemu_step` on fuel, and the theorem says how much is enough.
--
-- Not modelled: freeing the caches, debug and log output, the load/store hook, and the arithmetic of IEEE
-- numbers itself.
pub mod Prelude
pub mod Bus
pub mod Cache
pub mod Spr
pub mod SprMove
pub mod State
pub mod Exception
pub mod Cr
pub mod Arith
pub mod MulDiv
pub mod Bitwise
pub mod Cond
pub mod Branch
pub mod Mmu
pub mod LoadStore
pub mod CacheOps
pub mod Float
pub mod Paired
pub mod Decode
pub mod Run
pub mod Public
pub mod Tests
