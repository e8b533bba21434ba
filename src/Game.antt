-- ===== src/Game.antt =====
-- apps/engine/{include,source}/game: the game's packets, its server and its client.
pub mod HandShake
pub mod ServerSingleton
pub mod OutgoingClientSingleton
pub mod Session
pub mod Entities
