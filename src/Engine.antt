-- ===== src/Engine.antt =====
-- apps/engine/{include,source}/engine and apps/engine/source/EngineMain.cpp.
pub mod Core
pub mod EngineMain
pub mod Logging
pub mod FileReadObject
pub mod InputListenerSingleton
pub mod Singletons
pub mod Meeting
