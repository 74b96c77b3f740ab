-- ===== src/Public/LogLevel.antt =====
-- `ppcemu_set_loglevel` of src/state.c. The levels are global variables there, not in the state.
use libppcemu.Prelude.{◌≡◌, arith}

pub data LogLevel : Type 0 where
  error warn info verbose debug : LogLevel

-- A number that is none of the sources is `other`.
pub data LogSource : Type 0 where
  addr_translation ifetch instr_decode branch loadstore cache misc other : LogSource

pub record LogLevels : Type 0 where
  pub virt2phys_loglevel : LogLevel
  pub ifetch_loglevel : LogLevel
  pub decode_loglevel : LogLevel
  pub branch_loglevel : LogLevel
  pub loadstore_loglevel : LogLevel
  pub cond_loglevel : LogLevel
  pub cache_loglevel : LogLevel
  pub misc_loglevel : LogLevel

-- Where the program starts.
unfoldable pub first_levels : LogLevels
first_levels = record {
  virt2phys_loglevel = info;
  ifetch_loglevel = info;
  decode_loglevel = info;
  branch_loglevel = info;
  loadstore_loglevel = info;
  cond_loglevel = info;
  cache_loglevel = info;
  misc_loglevel = info;
}

unfoldable pub set_loglevel : LogLevels → LogSource → LogLevel → LogLevels
set_loglevel g addr_translation level = record g { virt2phys_loglevel = level }
set_loglevel g ifetch level = record g { ifetch_loglevel = level }
set_loglevel g instr_decode level = record g { decode_loglevel = level }
set_loglevel g branch level = record g { branch_loglevel = level }
set_loglevel g loadstore level = record g { loadstore_loglevel = level }
set_loglevel g cache level = record g { cache_loglevel = level }
set_loglevel g misc level = record g { misc_loglevel = level }
set_loglevel g other level = g

-- No source sets the level of the compare instructions.
set_loglevel-cond :
    (g : LogLevels) (source : LogSource) (level : LogLevel)
    → (set_loglevel g source level).cond_loglevel ≡ g.cond_loglevel
unfolding set_loglevel
set_loglevel-cond g source level = ground arith
