-- ===== src/Policy/Decide/Tests.antt =====
-- The policy run on concrete histories, and its theorems at those histories.
use proofops_memoryguard.Base.{none, List, [], ◌∷◌, ◌++◌, ◌≡◌, refl, filter_by, map, inl, ◌&&◌}
use proofops_memoryguard.Errors.{ok}
use proofops_memoryguard.Models.{
  StoredObservation, deny, needs_human, caller_supplied, accepted, target_revoked, kind_eq,
}
use proofops_memoryguard.Policy.Decide.{PolicyDecision, decide, names_target, active_for_mode}
use proofops_memoryguard.Policy.Decide.Verdicts.{
  decide-ignores_inactive, decide-revoked, decide-blocked, decide-ready, IsGrounded,
}
use proofops_memoryguard.Samples.{
  running, demo_runtime, baseline, revocation, intent, noon, payee, dollars, value_of,
}
use proofops_memoryguard.Python.Value.{int, str, float}
use proofops_memoryguard.Python.Number.{pos}

abbrev approval : StoredObservation
approval = record {
  observation_id = "obs-1";
  subject_ref = "subject";
  session_id = "session-1";
  kind = baseline.kind;
  source_id = "registry";
  evidence_mode = baseline.evidence_mode;
  status = accepted;
  accepted_facts =
      ("chain_id", int (pos 8453))
      ∷ ("target", str payee)
      ∷ ("method", str "pay")
      ∷ ("max_amount_usd", float (dollars 100))
      ∷ [];
  quarantined_fields = [];
  reason_codes = "structured_fact_accepted" ∷ [];
  raw_text_hash = none;
  idempotency_key = "baseline-key";
  observed_at = noon;
  previous_hash = "";
  observation_hash = "";
}

abbrev withdrawal : StoredObservation
withdrawal = record approval {
  observation_id = "obs-2";
  kind = revocation.kind;
  accepted_facts = ("target", str payee) ∷ [];
}

-- the same words from the caller
abbrev rumour : StoredObservation
rumour = record withdrawal { evidence_mode = caller_supplied }

abbrev nothing : PolicyDecision
nothing = record { verdict = needs_human; reason_codes = []; causal_memory_ids = [] }

abbrev decided : List StoredObservation → PolicyDecision
decided xs = value_of (decide intent xs noon) nothing

nothing_known : (decided []).verdict ≡ needs_human
unfolding running
nothing_known = refl

decide-ignores_inactive_example :
    decide intent (approval ∷ rumour ∷ []) noon ≡ decide intent (approval ∷ []) noon
unfolding running
decide-ignores_inactive_example = decide-ignores_inactive intent (approval ∷ []) [] rumour noon refl

decide-revoked_example :
    (d : PolicyDecision) × (decide intent (withdrawal ∷ approval ∷ []) noon ≡ ok d)
    × (d.verdict ≡ deny)
    × (d.reason_codes ≡ "target_revoked_in_persistent_memory" ∷ [])
    × (d.causal_memory_ids
        ≡ map
            (λ x. x.observation_id)
            (filter_by
              (λ x.
                active_for_mode x intent.evidence_mode
                && (kind_eq x.kind target_revoked && names_target intent x))
              (withdrawal ∷ approval ∷ [])))
unfolding running
decide-revoked_example =
    decide-revoked intent (withdrawal ∷ approval ∷ []) noon withdrawal (inl refl) refl refl refl

decide-blocked_example :
    (d : PolicyDecision) × (decide intent ((withdrawal ∷ []) ++ (approval ∷ [])) noon ≡ ok d)
    × (d.verdict ≡ deny)
unfolding running
decide-blocked_example = decide-blocked intent (withdrawal ∷ []) (approval ∷ []) noon refl

decide-ready_example : IsGrounded intent noon (approval ∷ []) (decided (approval ∷ []))
unfolding running
decide-ready_example = decide-ready intent (approval ∷ []) noon (decided (approval ∷ [])) refl refl
