-- ===== src/Engine.antt =====
-- iris-engine2/src: the recognition engine's own logic around the iris library.
pub mod Reader
pub mod Codec
pub mod Gallery
pub mod Smpc
pub mod Smpc2
pub mod Db
pub mod Fhe
pub mod Nats
pub mod Bus
pub mod Party
pub mod Analyze
pub mod Routes
pub mod Enroll
