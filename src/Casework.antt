-- ===== src/Casework.antt =====
-- src/proofops_casework: one workspace for each tenant, with its tasks, risk cases, baselines and
-- decisions, and the policy over them.
pub mod Models
pub mod Values
pub mod Digest
pub mod Ancestors
pub mod Affected
pub mod Basis
pub mod Ruling
pub mod Validity
pub mod Integrity
pub mod Service
pub mod Decide
pub mod Tests
