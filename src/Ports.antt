-- ===== src/Ports.antt =====
-- src/proofops_memoryguard/ports.py: the stores and services that the guard is given. The memory
-- port comes with what the guard relies on: three maps, read and written entry by entry, and a
-- commit that compares versions.
use proofops_memoryguard.Base.{
  ℕ, String, Option, none, some, ◌≡◌, ◌==◌, eqb, if◌then◌else◌, true, false,
}
use proofops_memoryguard.Errors.{Result, ok, err, memory_conflict}
use proofops_memoryguard.Exec.{Exec}
use proofops_memoryguard.Models.{
  SubjectMemory, StoredObservation, DecisionDraft, FinalizationResult, AnchorPlan,
  AnchorVerification,
}

pub record MemoryPort (M : Type 0) : Type 0 where
  pub production_kind : String
  pub load_subject : String → Exec M (Option SubjectMemory)
  pub commit_observation : ℕ → SubjectMemory → StoredObservation → Exec M (Unit {0})
  pub save_decision : DecisionDraft → Exec M (Unit {0})
  pub load_decision : String → Exec M (Option DecisionDraft)
  pub save_finalization : FinalizationResult → Exec M (Unit {0})
  pub load_finalization : String → Exec M (Option FinalizationResult)

pub record AnchorPort : Type 0 where
  pub plan : DecisionDraft → Result (Option AnchorPlan)
  pub verify : DecisionDraft → String → Result AnchorVerification

-- `current.version if current else 0`
abbrev pub version_of : Option SubjectMemory → ℕ
version_of none = 0
version_of (some s) = s.version

-- What an available memory does, seen through the three maps that it holds.
pub record IsAvailable {M : Type 0} (port : MemoryPort M) : Type 0 where
  pub subject : M → String → Option SubjectMemory
  pub decision : M → String → Option DecisionDraft
  pub finalization : M → String → Option FinalizationResult
  pub load_subject_lem : (ref : String) (m : M) → port.load_subject ref m ≡ (ok (subject m ref), m)
  pub load_decision_lem : (id : String) (m : M) → port.load_decision id m ≡ (ok (decision m id), m)
  pub load_finalization_lem :
      (id : String) (m : M) → port.load_finalization id m ≡ (ok (finalization m id), m)
  -- a commit at another version is refused and changes nothing
  pub commit_refused :
      (n : ℕ) (s : SubjectMemory) (o : StoredObservation) (m : M)
      → eqb (version_of (subject m s.subject_ref)) n ≡ false
      → port.commit_observation n s o m
        ≡ (err (memory_conflict "subject memory version changed"), m)
  pub commit_accepted :
      (n : ℕ) (s : SubjectMemory) (o : StoredObservation) (m : M)
      → eqb (version_of (subject m s.subject_ref)) n ≡ true
      → (port.commit_observation n s o m).0 ≡ ok tt
  pub subject-commit :
      (n : ℕ) (s : SubjectMemory) (o : StoredObservation) (m : M) (k : String)
      → subject (port.commit_observation n s o m).1 k ≡ (
          if eqb (version_of (subject m s.subject_ref)) n
          then (if s.subject_ref == k then some s else subject m k)
          else subject m k)
  pub decision-commit :
      (n : ℕ) (s : SubjectMemory) (o : StoredObservation) (m : M) (k : String)
      → decision (port.commit_observation n s o m).1 k ≡ decision m k
  pub finalization-commit :
      (n : ℕ) (s : SubjectMemory) (o : StoredObservation) (m : M) (k : String)
      → finalization (port.commit_observation n s o m).1 k ≡ finalization m k
  pub save_decision_lem : (d : DecisionDraft) (m : M) → (port.save_decision d m).0 ≡ ok tt
  pub subject-save_decision :
      (d : DecisionDraft) (m : M) (k : String) → subject (port.save_decision d m).1 k ≡ subject m k
  pub decision-save_decision :
      (d : DecisionDraft) (m : M) (k : String)
      → decision (port.save_decision d m).1 k
        ≡ (if d.decision_id == k then some d else decision m k)
  pub finalization-save_decision :
      (d : DecisionDraft) (m : M) (k : String)
      → finalization (port.save_decision d m).1 k ≡ finalization m k
  pub save_finalization_lem :
      (r : FinalizationResult) (m : M) → (port.save_finalization r m).0 ≡ ok tt
  pub subject-save_finalization :
      (r : FinalizationResult) (m : M) (k : String)
      → subject (port.save_finalization r m).1 k ≡ subject m k
  pub decision-save_finalization :
      (r : FinalizationResult) (m : M) (k : String)
      → decision (port.save_finalization r m).1 k ≡ decision m k
  pub finalization-save_finalization :
      (r : FinalizationResult) (m : M) (k : String)
      → finalization (port.save_finalization r m).1 k
        ≡ (if r.decision_id == k then some r else finalization m k)
