-- ===== src/Master.antt =====
-- Parts of the slave level of the master (src/ec_main.c): error list, mailbox pool, process data.
pub mod Errors
pub mod Mailbox
pub mod Transmit
pub mod Process
mod Tests
