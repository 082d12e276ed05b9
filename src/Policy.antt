-- ===== src/Policy.antt =====
-- src/proofops_memoryguard/policy.py: which facts of an observation are accepted, and the verdict
-- on a payment intent from the accepted ones.
pub mod Facts
pub mod Classify
pub mod Decide
