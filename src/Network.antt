-- ===== src/Network.antt =====
-- apps/engine/{include,source}/network: packets, and the two ends of a connection over ENet.
pub mod PacketBase
pub mod IncomingClientBase
pub mod ServerBase
pub mod OutgoingClientBase
