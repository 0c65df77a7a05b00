-- ===== src/ControlPlane.antt =====
-- crates/control-plane: the registry of nodes, their health, the choice of a node for a connection,
-- and the bandwidth that connections reserve.
pub mod Float
pub mod Model
pub mod Health
pub mod Routing
pub mod Bandwidth
pub mod Registry
pub mod Service
pub mod Api
pub mod Server
pub mod System
mod Tests
