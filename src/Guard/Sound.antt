-- ===== src/Guard/Sound.antt =====
-- What a memory that only the guard has written looks like.
use proofops_memoryguard.Base.{String, false, Option, none, some, ◌≡◌, refl}
use proofops_memoryguard.Python.Number.{Datetime}
use proofops_memoryguard.Python.Runtime.{Runtime}
use proofops_memoryguard.Models.{SubjectMemory, DecisionDraft, FinalizationResult, empty_subject}
use proofops_memoryguard.Proof.Chain.{IsIntact}
use proofops_memoryguard.Proof.Decision.{IsBound}
use proofops_memoryguard.Ports.{MemoryPort, IsAvailable, version_of}
use proofops_memoryguard.Guard.Observe.{or_empty}

module _ ⦃runtime : Runtime⦄ where
  -- Every entry stands under its own key; subjects are intact, decisions bound to what they decide,
  -- and no result is executable.
  pub record IsSound {M : Type 0} {port : MemoryPort M} (a : IsAvailable port) (m : M)
      : Type 0 where
    pub subject_key : (k : String) (s : SubjectMemory) → a.subject m k ≡ some s → s.subject_ref ≡ k
    pub subject_intact : (k : String) (s : SubjectMemory) → a.subject m k ≡ some s → IsIntact s
    pub decision_key :
        (k : String) (d : DecisionDraft) → a.decision m k ≡ some d → d.decision_id ≡ k
    pub decision_bound : (k : String) (d : DecisionDraft) → a.decision m k ≡ some d → IsBound d
    pub result_key :
        (k : String) (r : FinalizationResult) → a.finalization m k ≡ some r → r.decision_id ≡ k
    pub result_inert :
        (k : String) (r : FinalizationResult) → a.finalization m k ≡ some r → r.executable ≡ false

  empty_subject-IsIntact : (ref : String) (now : Datetime) → IsIntact (empty_subject ref now)
  unfolding empty_subject
  empty_subject-IsIntact ref now = record { counted = refl; linked = refl }

  -- The subject that a call works on, stored or fresh, is intact and its own.
  pub or_empty-IsIntact :
      (ref : String) (now : Datetime) (o : Option SubjectMemory)
      → ((s : SubjectMemory) → o ≡ some s → IsIntact s)
      → IsIntact (or_empty ref now o)
  or_empty-IsIntact ref now none h = empty_subject-IsIntact ref now
  or_empty-IsIntact ref now (some s) h = h s refl

  pub or_empty-subject_ref :
      (ref : String) (now : Datetime) (o : Option SubjectMemory)
      → ((s : SubjectMemory) → o ≡ some s → s.subject_ref ≡ ref)
      → (or_empty ref now o).subject_ref ≡ ref
  unfolding empty_subject
  or_empty-subject_ref ref now none h = refl
  or_empty-subject_ref ref now (some s) h = h s refl

pub or_empty-version :
    (ref : String) (now : Datetime) (o : Option SubjectMemory)
    → version_of o ≡ (or_empty ref now o).version
unfolding empty_subject
or_empty-version ref now none = refl
or_empty-version ref now (some s) = refl
