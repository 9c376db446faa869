-- ===== src/Driver.antt =====
-- src/core/driver.c: the requests that each driver serves, and its start and stop.
pub mod Calls
pub mod Active
pub mod Descs
pub mod Refs
