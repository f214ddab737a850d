-- ===== src/Cia402.antt =====
-- The CiA 402 drive profile (linux_rt/ethercat_rt_core: include/motion_cia402.h and
-- src/motion_cia402.c): drive states and sequences, motion commands, motion profiles.
pub mod Drive
pub mod Text
pub mod Double
pub mod Fixed
pub mod Examples
pub mod Command
pub mod Profile
