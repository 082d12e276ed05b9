-- ===== src/Proof/Tests.antt =====
-- The checks of proof.py run on a memory and decisions of the guard, and their theorems there.
use proofops_memoryguard.Base.{true, none, ◌≡◌, refl, map, ◌↔◌, inl, inr}
use proofops_memoryguard.Errors.{ok}
use proofops_memoryguard.Python.Number.{is_finite}
use proofops_memoryguard.Models.{SubjectMemory, DecisionDraft}
use proofops_memoryguard.Canonical.{subject_ref}
use proofops_memoryguard.Proof.{validate_subject, validate_decision, compute_intent_hash}
use proofops_memoryguard.Proof.Content.{content}
use proofops_memoryguard.Proof.Chain.{
  IsIntact, validate_subject-IsIntact, memory_root-determines, NoCollision,
}
use proofops_memoryguard.Proof.Decision.{
  IsBound, validate_decision-IsBound, compute_intent_hash-finite,
}
use proofops_memoryguard.Memory.{InMemory, new_memory, in_memory}
use proofops_memoryguard.Memory.Available.{in_memory-IsAvailable}
use proofops_memoryguard.Guard.Observe.{observe}
use proofops_memoryguard.Guard.Decide as Deciding
use proofops_memoryguard.Guard.Observe.{or_empty}
use proofops_memoryguard.Samples.{
  running, demo_runtime, baseline, intent, guard, observing, deciding, noon, value_of, no_draft,
}

abbrev approved_memory : InMemory
approved_memory = (observe in_memory baseline observing new_memory).1

abbrev vendor : SubjectMemory
vendor =
    or_empty "" noon
      (in_memory-IsAvailable.subject approved_memory (value_of (subject_ref "vendor-1") ""))

abbrev draft : DecisionDraft
draft = value_of (Deciding.decide in_memory guard intent deciding approved_memory).0 no_draft

vendor_grew : vendor.version ≡ 1
unfolding running in_memory-IsAvailable
vendor_grew = refl

-- A changed amount breaks the binding.
changed_is_refused :
    validate_decision (record draft { intent = record intent { method = "mint" } }) ≡ ok tt → ⊥
unfolding running
changed_is_refused h = cc

validate_subject-IsIntact_example : (validate_subject vendor ≡ ok tt) ↔ IsIntact vendor
validate_subject-IsIntact_example = validate_subject-IsIntact vendor

validate_decision-IsBound_example : (validate_decision draft ≡ ok tt) ↔ IsBound draft
validate_decision-IsBound_example = validate_decision-IsBound draft

vendor-IsIntact : IsIntact vendor
unfolding running in_memory-IsAvailable
vendor-IsIntact = (validate_subject-IsIntact vendor).0 refl

-- the same history in a copy that was touched at another time
abbrev copied : SubjectMemory
copied = record vendor { updated_at = record { instant = 2000000; zone = none } }

copied-IsIntact : IsIntact copied
unfolding running in_memory-IsAvailable
copied-IsIntact = (validate_subject-IsIntact copied).0 refl

-- the one observation of the vendor collides with nothing
one_observation : NoCollision vendor.observations copied.observations
unfolding running in_memory-IsAvailable
one_observation a b (inl p) (inl q) h = rw (p, q) refl
one_observation a b (inl p) (inr j) h = absurd j
one_observation a b (inr i) j h = absurd i

memory_root-determines_example : map content vendor.observations ≡ map content copied.observations
memory_root-determines_example =
    memory_root-determines vendor copied vendor-IsIntact copied-IsIntact refl refl one_observation

compute_intent_hash-finite_example : is_finite intent.amount_usd ≡ true
unfolding running
compute_intent_hash-finite_example =
    compute_intent_hash-finite intent (value_of (compute_intent_hash intent) "") refl
