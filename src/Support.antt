-- ===== src/Support.antt =====
-- apps/engine/{include,source}/support: the engine's support classes.
pub mod BitStream
pub mod Time
pub mod Scheduler
pub mod CommandLineParser
pub mod Array
pub mod EventManager
pub mod MapDivision
pub mod String
pub mod Singleton
pub mod EndianUtilities
