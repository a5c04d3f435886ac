-- ===== src/Tests.antt =====
-- Runs of the models, and the theorems at concrete inputs.
mod Messages
mod Connection
mod Encoding
mod Disk
mod Storage
mod Metadata
mod Managing
mod Tracking
mod Decoding
