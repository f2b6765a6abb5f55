-- ===== src/Tests.antt =====
-- Runs at concrete inputs, and the theorems at inputs that meet their conditions.
mod Gateway
mod Storage
mod Engine
mod Capture
mod Camera
mod KeyService
mod Smpc
mod Database
mod Devices
mod Routes
mod Context
mod Nats
mod Codec
