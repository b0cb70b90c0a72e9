-- ===== src/Server.antt =====
-- rpc_src/network: the connections of the server and its event loop.
pub mod Manager
pub mod Cycle
pub mod Respond
mod Tests
