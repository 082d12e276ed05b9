-- ===== src/Agent.antt =====
-- src/proofops_memoryguard/agent.py and agent_models.py: the agent that plans around a decision,
-- the events it records and the check of a stored run.
pub mod Models
pub mod Authority
pub mod Check
pub mod Validate
pub mod Run
pub mod Claimed
pub mod Resume
pub mod Resumed
pub mod Tests
pub mod Authorized
pub mod Denied
