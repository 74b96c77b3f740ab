-- ===== src/Tests.antt =====
-- Each theorem that has hypotheses, applied to concrete states.
pub mod Data
pub mod Memory
pub mod Core
pub mod Integer
pub mod Access
pub mod System
pub mod Decode
pub mod Float
