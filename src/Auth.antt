-- ===== src/Auth.antt =====
-- internal/sshauth: keys and the authorized_keys file.
pub mod Keys
pub mod File
pub mod Windows
mod Tests
