-- ===== src/Upload.antt =====
-- upload.py: the content-addressed store behind an SFTP server.
pub mod State
pub mod Push
pub mod Pull
pub mod Maintain
pub mod Overrides
mod Tests
