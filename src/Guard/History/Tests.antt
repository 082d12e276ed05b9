-- ===== src/Guard/History/Tests.antt =====
-- The guard run on concrete inputs, and its theorems at those inputs.
use proofops_memoryguard.Base.{
  String, true, false, Option, none, some, [], ◌≡◌, refl, get, arith, if◌then◌else◌, ◌==◌, eqb,
}
use proofops_memoryguard.Errors.{Error, Result, ok, err}
use proofops_memoryguard.Canonical.{subject_ref}
use proofops_memoryguard.Models.{
  DecisionDraft, FinalizationResult, SubjectMemory, StoredObservation, empty_subject, accepted,
  Verdict, ready, deny, not_configured,
}
use proofops_memoryguard.Ports.{AnchorPort, version_of}
use proofops_memoryguard.Memory.{InMemory, new_memory, in_memory, commit_observation}
use proofops_memoryguard.Memory.Available.{in_memory-IsAvailable, subject-commit}
use proofops_memoryguard.Guard.Sound.{IsSound}
use proofops_memoryguard.Guard.Observe.{observe, or_empty}
use proofops_memoryguard.Guard.Decide as Deciding
use proofops_memoryguard.Guard.History.{
  Reach, start, then_step, observes, decides, Reach-IsSound, Reach-Extends, Extends,
}
use proofops_memoryguard.Guard.History.Forever.{blocked_forever, finalize-stale, finalize-inert}
use proofops_memoryguard.Guard.Observe.Append
use proofops_memoryguard.Guard.Observe.Append.{observe-Outcome}
use proofops_memoryguard.Guard.Decide.Drafts
use proofops_memoryguard.Guard.Decide.Drafts.{decide-Outcome, decide-IsBounded}
use proofops_memoryguard.Guard.Finalize
use proofops_memoryguard.Guard.Finalize.Results
use proofops_memoryguard.Guard.Finalize.Results.{finalize-Outcome}
use proofops_memoryguard.Samples.{
  running, demo_runtime, baseline, revocation, intent, guard, observing, deciding, value_of,
  no_draft, noon,
}

abbrev approved_memory : InMemory
approved_memory = (observe in_memory baseline observing new_memory).1

abbrev revoked_memory : InMemory
revoked_memory = (observe in_memory revocation observing approved_memory).1

abbrev verdict_of : Result DecisionDraft → Option Verdict
verdict_of (ok d) = some d.verdict
verdict_of (err e) = none

-- A verified baseline makes the intent READY, and the revocation after it DENY.
approved_is_ready :
    verdict_of (Deciding.decide in_memory guard intent deciding approved_memory).0 ≡ some ready
unfolding running
approved_is_ready = refl

revoked_is_denied :
    verdict_of (Deciding.decide in_memory guard intent deciding revoked_memory).0 ≡ some deny
unfolding running
revoked_is_denied = refl

nothing_stored : {V : Type 0} (k : String) (v : V) → get k [] ≡ some v → ⊥
unfolding get
nothing_stored k v h = cc

new_memory-IsSound : IsSound in_memory-IsAvailable new_memory
unfolding in_memory-IsAvailable
new_memory-IsSound = record {
  subject_key = λ k s h. absurd (nothing_stored k s h);
  subject_intact = λ k s h. absurd (nothing_stored k s h);
  decision_key = λ k d h. absurd (nothing_stored k d h);
  decision_bound = λ k d h. absurd (nothing_stored k d h);
  result_key = λ k r h. absurd (nothing_stored k r h);
  result_inert = λ k r h. absurd (nothing_stored k r h);
}

to_revoked : Reach in_memory-IsAvailable new_memory revoked_memory
to_revoked =
    then_step (then_step start (observes baseline observing refl))
      (observes revocation observing refl)

Reach-IsSound_example : IsSound in_memory-IsAvailable revoked_memory
Reach-IsSound_example =
    Reach-IsSound in_memory-IsAvailable new_memory revoked_memory new_memory-IsSound to_revoked

abbrev vendor : String
vendor = value_of (subject_ref "vendor-1") ""

Reach-Extends_example :
    Extends
      (in_memory-IsAvailable.subject new_memory vendor)
      (in_memory-IsAvailable.subject revoked_memory vendor)
Reach-Extends_example =
    Reach-Extends in_memory-IsAvailable new_memory revoked_memory vendor new_memory-IsSound
      to_revoked

abbrev denied_draft : DecisionDraft
denied_draft = value_of (Deciding.decide in_memory guard intent deciding revoked_memory).0 no_draft

blocked_forever_example : denied_draft.verdict ≡ deny
unfolding running in_memory-IsAvailable
blocked_forever_example =
    blocked_forever in_memory-IsAvailable revoked_memory revoked_memory guard intent deciding vendor
      denied_draft Reach-IsSound_example start refl refl refl

observe-Outcome_example :
    Append.Outcome in_memory-IsAvailable revoked_memory baseline observing
      (observe in_memory baseline observing revoked_memory)
observe-Outcome_example =
    observe-Outcome in_memory-IsAvailable revoked_memory baseline observing Reach-IsSound_example

decide-Outcome_example :
    Drafts.Outcome in_memory-IsAvailable approved_memory guard intent deciding
      (Deciding.decide in_memory guard intent deciding approved_memory)
decide-Outcome_example = decide-Outcome in_memory-IsAvailable approved_memory guard intent deciding

abbrev approved_draft : DecisionDraft
approved_draft =
    value_of (Deciding.decide in_memory guard intent deciding approved_memory).0 no_draft

decide-IsBounded_example :
    (approved_draft.intent.amount_usd ≡ intent.amount_usd)
    × Drafts.IsBounded approved_draft.intent.amount_usd
unfolding running
decide-IsBounded_example =
    decide-IsBounded in_memory-IsAvailable approved_memory guard intent deciding approved_draft refl

-- No network is configured.
abbrev no_anchor : AnchorPort
no_anchor = record {
  plan = λ d. ok none;
  verify = λ d tx. ok (record {
    state = not_configured;
    tx_hash = none;
    chain_id = none;
    contract = none;
    block_number = none;
    reason_codes = [];
  });
}

abbrev decided_memory : InMemory
decided_memory = (Deciding.decide in_memory guard intent deciding approved_memory).1

abbrev ready_draft : DecisionDraft
ready_draft = value_of (Deciding.decide in_memory guard intent deciding approved_memory).0 no_draft

abbrev stale_memory : InMemory
stale_memory = (observe in_memory revocation observing decided_memory).1

abbrev finalized : Result FinalizationResult × InMemory
finalized =
    Finalize.finalize in_memory guard no_anchor ready_draft.decision_id none noon decided_memory

finalize-Outcome_example :
    Results.Outcome in_memory-IsAvailable decided_memory guard ready_draft.decision_id noon
      finalized
finalize-Outcome_example =
    finalize-Outcome in_memory-IsAvailable decided_memory guard no_anchor ready_draft.decision_id
      none noon

abbrev unsettled : FinalizationResult
unsettled = record {
  decision_id = "";
  verdict = deny;
  state = not_configured;
  proof_root = "";
  executable = true;
  anchor_plan = none;
  anchor_verification = none;
  reason_codes = [];
}

to_decided : Reach in_memory-IsAvailable new_memory decided_memory
to_decided =
    then_step (then_step start (observes baseline observing refl))
      (decides guard intent deciding refl)

finalize-inert_example : (value_of finalized.0 unsettled).executable ≡ false
unfolding running
finalize-inert_example =
    finalize-inert in_memory-IsAvailable new_memory decided_memory guard no_anchor
      ready_draft.decision_id none noon (value_of finalized.0 unsettled) new_memory-IsSound
      to_decided refl

abbrev current_vendor : SubjectMemory
current_vendor =
    or_empty "" noon (in_memory-IsAvailable.subject stale_memory ready_draft.subject_ref)

finalize-stale_example :
    (e : Error) × (Finalize.finalize in_memory guard no_anchor ready_draft.decision_id none noon
        stale_memory
      ≡ (err e, stale_memory))
unfolding running in_memory-IsAvailable
finalize-stale_example =
    finalize-stale in_memory-IsAvailable stale_memory guard no_anchor ready_draft.decision_id none
      noon ready_draft current_vendor refl refl refl (λ h. omega (arith, h))

abbrev withdrawn : StoredObservation
withdrawn = record {
  observation_id = "obs-2";
  subject_ref = vendor;
  session_id = "session-1";
  kind = revocation.kind;
  source_id = "registry";
  evidence_mode = revocation.evidence_mode;
  status = accepted;
  accepted_facts = [];
  quarantined_fields = [];
  reason_codes = [];
  raw_text_hash = none;
  idempotency_key = "revocation-key";
  observed_at = noon;
  previous_hash = "";
  observation_hash = "";
}

-- a commit at a version that is no longer the stored one
subject-commit_example :
    get vendor
      (commit_observation 0 (empty_subject vendor noon) withdrawn approved_memory).1.subjects
    ≡ (if eqb (version_of (get vendor approved_memory.subjects)) 0
        then (if vendor == vendor
            then some (empty_subject vendor noon)
            else get vendor approved_memory.subjects)
        else get vendor approved_memory.subjects)
unfolding running
subject-commit_example =
    subject-commit 0 (empty_subject vendor noon) withdrawn approved_memory vendor
