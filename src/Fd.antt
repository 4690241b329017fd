-- ===== src/Fd.antt =====
-- src/fd.c: file descriptors. The system calls are not the library's: what each call returns is an
-- argument, a value or the errno of a -1.
pub mod Io
pub mod Transfer
pub mod Retry
pub mod Fully
pub mod Sweep
pub mod Swept
pub mod Blacklisted
pub mod Wait
pub mod Ready
pub mod Flags
pub mod Calls
pub mod Flagged
pub mod Listed
mod Tests
