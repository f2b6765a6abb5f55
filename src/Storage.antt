-- ===== src/Storage.antt =====
-- storage/src: the archive of captured frames and its retention policy.
pub mod Base64
pub mod Paths
pub mod Dates
pub mod Store
pub mod Archive
pub mod Purger
