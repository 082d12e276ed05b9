-- ===== src/Memory/Available.antt =====
-- The in-memory adapter does what the guard relies on.
use proofops_memoryguard.Base.{
  ℕ, String, ◌≡◌, refl, get, get-put, eqb, if◌then◌else◌, arith, some, ◌==◌,
}
use proofops_memoryguard.Models.{SubjectMemory, StoredObservation}
use proofops_memoryguard.Ports.{IsAvailable, version_of}
use proofops_memoryguard.Memory.{
  InMemory, in_memory, load_subject, commit_observation, save_decision, load_decision,
  save_finalization, load_finalization,
}

-- A commit at the expected version replaces the record of its subject and no other; at any other
-- version it changes no record.
pub subject-commit :
    (n : ℕ) (s : SubjectMemory) (o : StoredObservation) (m : InMemory) (k : String)
    → get k (commit_observation n s o m).1.subjects ≡ (
        if eqb (version_of (get s.subject_ref m.subjects)) n
        then (if s.subject_ref == k then some s else get k m.subjects)
        else get k m.subjects)
unfolding commit_observation
subject-commit n s o m k = ground (arith, get-put s.subject_ref k s m.subjects)

pub decision-commit :
    (n : ℕ) (s : SubjectMemory) (o : StoredObservation) (m : InMemory) (k : String)
    → get k (commit_observation n s o m).1.decisions ≡ get k m.decisions
unfolding commit_observation
decision-commit n s o m k = ground arith

pub finalization-commit :
    (n : ℕ) (s : SubjectMemory) (o : StoredObservation) (m : InMemory) (k : String)
    → get k (commit_observation n s o m).1.finalizations ≡ get k m.finalizations
unfolding commit_observation
finalization-commit n s o m k = ground arith

unfoldable pub in_memory-IsAvailable : IsAvailable in_memory
unfolding load_subject commit_observation save_decision load_decision save_finalization
    load_finalization
in_memory-IsAvailable = record {
  subject = λ m k. get k m.subjects;
  decision = λ m k. get k m.decisions;
  finalization = λ m k. get k m.finalizations;
  load_subject_lem = λ ref m. refl;
  load_decision_lem = λ id m. refl;
  load_finalization_lem = λ id m. refl;
  commit_refused = λ n s o m h. rw h;
  commit_accepted = λ n s o m h. rw h;
  subject-commit = subject-commit;
  decision-commit = decision-commit;
  finalization-commit = finalization-commit;
  save_decision_lem = λ d m. refl;
  subject-save_decision = λ d m k. refl;
  decision-save_decision = λ d m k. get-put d.decision_id k d m.decisions;
  finalization-save_decision = λ d m k. refl;
  save_finalization_lem = λ r m. refl;
  subject-save_finalization = λ r m k. refl;
  decision-save_finalization = λ r m k. refl;
  finalization-save_finalization = λ r m k. get-put r.decision_id k r m.finalizations;
}
