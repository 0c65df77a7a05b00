-- ===== src/NodeAgent.antt =====
-- crates/node: the agent that carries connections to their targets.
mod Tests
pub mod Handler
pub mod Outcome
pub mod Server
pub mod CpClient
pub mod Metrics
