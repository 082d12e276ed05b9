-- ===== src/Memory.antt =====
-- src/proofops_memoryguard/adapters/memory_fake.py: the memory port over three dicts. Its deep
-- copies make every stored value independent of the caller's, as values of the model are anyway.
pub mod Available
use proofops_memoryguard.Base.{
  ℕ, String, Bool, Option, none, some, [], Dict, get, put, eqb, not, if◌then◌else◌,
}
use proofops_memoryguard.Errors.{Result, ok, err, memory_conflict}
use proofops_memoryguard.Exec.{Exec}
use proofops_memoryguard.Models.{
  SubjectMemory, StoredObservation, DecisionDraft, FinalizationResult,
}
use proofops_memoryguard.Ports.{MemoryPort, version_of}

pub record InMemory : Type 0 where
  pub subjects : Dict SubjectMemory
  pub decisions : Dict DecisionDraft
  pub finalizations : Dict FinalizationResult

-- `__init__`
abbrev pub new_memory : InMemory
new_memory = record { subjects = []; decisions = []; finalizations = [] }

unfoldable pub load_subject : String → Exec InMemory (Option SubjectMemory)
load_subject ref m = (ok (get ref m.subjects), m)

unfoldable pub commit_observation : ℕ → SubjectMemory → StoredObservation → Exec InMemory (Unit {0})
commit_observation previous_version subject observation m =
    if not (eqb (version_of (get subject.subject_ref m.subjects)) previous_version)
    then (err (memory_conflict "subject memory version changed"), m)
    else (ok tt, record m { subjects = put subject.subject_ref subject m.subjects })

unfoldable pub save_decision : DecisionDraft → Exec InMemory (Unit {0})
save_decision d m = (ok tt, record m { decisions = put d.decision_id d m.decisions })

unfoldable pub load_decision : String → Exec InMemory (Option DecisionDraft)
load_decision id m = (ok (get id m.decisions), m)

unfoldable pub save_finalization : FinalizationResult → Exec InMemory (Unit {0})
save_finalization r m = (ok tt, record m { finalizations = put r.decision_id r m.finalizations })

unfoldable pub load_finalization : String → Exec InMemory (Option FinalizationResult)
load_finalization id m = (ok (get id m.finalizations), m)

abbrev pub in_memory : MemoryPort InMemory
in_memory = record {
  production_kind = "test_only_in_memory";
  load_subject = load_subject;
  commit_observation = commit_observation;
  save_decision = save_decision;
  load_decision = load_decision;
  save_finalization = save_finalization;
  load_finalization = load_finalization;
}
