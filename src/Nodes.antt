-- ===== src/Nodes.antt =====
-- src/node_manager.c and src/node_manager.h.
pub mod BrowseMap
pub mod Depth
pub mod Sort
pub mod Server
pub mod Manager
pub mod Edit
pub mod Simulation
