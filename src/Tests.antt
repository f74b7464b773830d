-- ===== src/Tests.antt =====
-- Tests: the theorems at concrete inputs.
pub mod Lists
pub mod Text
pub mod Files
pub mod Params
pub mod Chunks
pub mod Logs
pub mod LogTags
pub mod Encrypted
pub mod Modules
pub mod Ports
