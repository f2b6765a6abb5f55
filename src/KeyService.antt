-- ===== src/KeyService.antt =====
-- key-service/src: decryption of comparison results.
pub mod Service
pub mod Base64
pub mod Context
pub mod Decrypt
