-- ===== src/Examples.antt =====
-- The theorems at concrete inputs.
mod Streams
mod Peers
mod Sessions
mod Frames
mod Files
mod Entities
mod Launches
mod Flags
mod Tables
mod Programs
mod Instances
