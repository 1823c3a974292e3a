-- ===== src/Agentd.antt =====
-- internal/agentd: the agent inside the virtual machine.
pub mod Guard
pub mod Tools
pub mod Server
mod Samples
