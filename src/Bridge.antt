-- ===== src/Bridge.antt =====
-- src/opcua_tcp_bridge.c: the program that reads five sensors over OPC UA and sends them as
-- MessagePack frames to its TCP clients.
pub mod Clients
pub mod Frame
pub mod Link
pub mod Listen
pub mod Loop
