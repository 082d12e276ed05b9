-- ===== src/Casework/Tests.antt =====
-- A workspace built by commands on a store in memory, and the theorems of the casework package
-- at it. A digest here is the start of the text that is hashed.
use Prim.Native.String.{slice}
use proofops_memoryguard.Base.{
  ℕ, String, true, false, Option, none, some, [], ◌∷◌, Dict, get, ◌≡◌, refl, insert_text,
  sort_texts, insert_entry, sort_entries,
}
use proofops_memoryguard.Errors.{ok, err}
use proofops_memoryguard.Python.Number.{Datetime, pos}
use proofops_memoryguard.Python.Value.{Value}
use proofops_memoryguard.Python.Runtime.{Runtime}
use proofops_memoryguard.Samples
use proofops_memoryguard.Samples.{running, noon, value_of, payee}
use proofops_memoryguard.Casework.Models.{
  reviewer, Actor, owner, Scope, Intent, Command, Workspace, new_workspace, dispute,
}
use proofops_memoryguard.Casework.Affected.{added, spread, in_scope, affected_tasks}
use proofops_memoryguard.Casework.Ancestors.{each, descend, walk, ancestors}
use proofops_memoryguard.Casework.Basis.{
  look_up, entries_of, closure, is_link, filter_entries, basis_entry, scopes_of, task_basis,
  is_precedent, active_precedents, add_head, heads_among, evidence_heads, evidence_basis,
  investigation_basis,
}
use proofops_memoryguard.Casework.Decide.{
  change_tasks, invalidate, taint_open, escalate, expiry_of, draft_decision, decided, decide,
}
use proofops_memoryguard.Casework.Digest.{
  check_json, check_items, check_fields, hash_json, digest, scope_key, seal, has_role, authorize,
}
use proofops_memoryguard.Casework.Integrity.{
  is_range, is_history, check_event, check_audit, check_cases, check_baselines_kept,
  check_decisions, check_reports, validate_workspace,
}
use proofops_memoryguard.Casework.Ruling.{
  case_refs, check_baseline, check_baselines, needs_review, any_review, check_parents, rule,
  policy_result,
}
use proofops_memoryguard.Casework.Service.{
  Service, Fresh, merge, recheck, replay_of, precondition, request_value, record_change, carry_out,
  opened, admitted, previous_of, serve, transact, mutate,
}
use proofops_memoryguard.Casework.Service.Cases.{
  note_change, current_decision, open_change, reopen_change, review_change, open_risk, reopen_case,
  quarantine_note, prepare_review,
}
use proofops_memoryguard.Casework.Service.Commands.{
  bootstrap_change, baseline_change, check_parent_tasks, task_change, evaluate_change, bootstrap,
  set_baseline, register_task, evaluate,
}
use proofops_memoryguard.Casework.Validity.{
  earliest, judge, decision_validity, limits, ready_expiry, next_step, rows_of, recovery_plan,
}
use proofops_memoryguard.Casework.Values.{
  actor_value, scope_value, intent_value, case_value, task_value, report_value, handoff_value,
  baseline_value, decision_body, decision_value, state_payload,
}
use proofops_memoryguard.Errors.{recursion_error}
use proofops_memoryguard.Base.{map, keys, IsDistinct, contains, ◌↔◌, ◌≢◌, ◌⊎◌, ◌<◌, ◌≤◌}
use proofops_memoryguard.Casework.Models.{
  ready, deny, needs_human, suspended, Task, Baseline, Decision,
}
use proofops_memoryguard.Casework.Ancestors.Ends.{ancestors-ends}
use proofops_memoryguard.Casework.Ancestors.Order.{Ancestor, Topological, ancestors-Topological}
use proofops_memoryguard.Casework.Affected.Exact.{IsAffected, affected_tasks-Ancestor}
use proofops_memoryguard.Casework.Ruling.{Ruling, decision_of}
use proofops_memoryguard.Casework.Ruling.Denied.{Blocks, policy_result-Blocks}
use proofops_memoryguard.Casework.Ruling.Grounded.{
  IsGrounded, IsCovered, IsCurrent, policy_result-IsGrounded,
}
use proofops_memoryguard.Casework.Validity.{Validity, validity_of}
use proofops_memoryguard.Casework.Validity.Expiry.{ready_expiry-bounded}
use proofops_memoryguard.Casework.Validity.Preparable.{decision_validity-preparable}
use proofops_memoryguard.Casework.Decide.Suspended.{IsSuspended, invalidate-suspends}
use proofops_memoryguard.Casework.Service.Outcome.{IsServed, mutate-Outcome}
use proofops_memoryguard.Casework.Service.Reviewed.{
  MayReview, review_payload, prepare_review-MayReview,
}
use proofops_memoryguard.Casework.Models.{Report, RiskCase, deterministic}
use proofops_memoryguard.Casework.Service.Resolve.{
  any_source, bundle_asks, has_obligations, independent_handoff, chosen_reviewer, valid_report,
  handoff_change, accept_change, reconsider_tasks, link_resolution, resolve_change, handoff,
  accept_handoff, resolve, resolved,
}
use proofops_memoryguard.Casework.Service.Resolve.Independent.{
  IsIndependent, IsStopped, resolve_change-IsIndependent,
}
use proofops_memoryguard.Python.Value.{strings}
use proofops_memoryguard.Casework.Service.Repeated.{repeated, mutate-repeats}

-- Whoever unfolds this runs the service.
unfoldable pub running_casework : Unit {0}
unfolding running insert_text sort_texts insert_entry sort_entries added spread in_scope
    affected_tasks each descend walk ancestors look_up entries_of closure is_link filter_entries
    basis_entry scopes_of task_basis is_precedent active_precedents add_head heads_among
    evidence_heads evidence_basis investigation_basis change_tasks invalidate taint_open escalate
    expiry_of draft_decision decided decide check_json check_items check_fields hash_json digest
    scope_key seal has_role authorize is_range is_history check_event check_audit check_cases
    check_baselines_kept check_decisions check_reports validate_workspace new_workspace case_refs
    check_baseline check_baselines needs_review any_review check_parents rule policy_result merge
    recheck replay_of precondition request_value record_change carry_out opened admitted previous_of
    serve transact mutate note_change current_decision open_change reopen_change review_change
    open_risk reopen_case quarantine_note prepare_review bootstrap_change baseline_change
    check_parent_tasks task_change evaluate_change bootstrap set_baseline register_task evaluate
    earliest judge decision_validity limits ready_expiry next_step rows_of recovery_plan actor_value
    scope_value intent_value case_value task_value report_value handoff_value baseline_value
    decision_body decision_value state_payload any_source bundle_asks has_obligations
    independent_handoff chosen_reviewer valid_report handoff_change accept_change reconsider_tasks
    link_resolution resolve_change handoff accept_handoff resolve
running_casework = tt

-- the first 90 characters behind the common prefix
instance abbrev short_runtime : Runtime
short_runtime = record Samples.demo_runtime { sha256 = λ t. slice t 24 90 }

abbrev Cell : Type 0
Cell = Option Workspace

abbrev service : Service Cell
service = record {
  store = record {
    lock = λ t m. (ok tt, m);
    load = λ t m. (ok m, m);
    save = λ t w m. (ok tt, some w);
  };
  actors = [];
  runtime_id = "runtime_1";
  process_id = 7;
  build_commit = "commit";
}

abbrev hour : Datetime
hour = record { instant = 3600000000; zone = some (pos 0) }

abbrev fresh : String → Fresh
fresh id = record {
  checked_at = noon;
  decided_at = noon;
  policy_at = noon;
  expiry_at = noon;
  event_at = noon;
  task_at = λ key. noon;
  hex = λ prefix. id;
}

abbrev boss : Actor
boss = record {
  actor_id = "owner-1";
  tenant_id = "tenant-1";
  role = owner;
  subjects = "vendor-1" ∷ [];
}

abbrev scope : Scope
scope = record { subject_id = "vendor-1"; chain_id = 84532; target = payee; method = "pay" }

abbrev intent : Intent
intent = record { scope = scope; amount_minor = 20; currency = "USD" }

abbrev command : ℕ → String → Command
command n key = record { idempotency_key = key; session_id = "session-1"; expected_revision = n }

abbrev started : Cell
started = (bootstrap service (fresh "0") boss (command 0 "key-0") none).1

abbrev based : Cell
based = (set_baseline service (fresh "1") boss (command 1 "key-1") scope 100 hour started).1

abbrev with_parent : Cell
with_parent = (register_task service (fresh "2") boss (command 2 "key-2") intent [] based).1

abbrev with_child : Cell
with_child =
    (register_task service (fresh "3") boss (command 3 "key-3") intent ("task_2" ∷ [])
      with_parent).1

abbrev no_space : Workspace
no_space = new_workspace ""

abbrev space_of : Cell → Workspace
space_of none = no_space
space_of (some w) = w

abbrev child : Workspace
child = space_of with_child

abbrev at_risk : Workspace
at_risk =
    space_of
      (open_risk service (fresh "4") boss (command 4 "key-4") scope dispute "digest" with_child).1

abbrev no_ruling : Ruling
no_ruling = record { verdict = needs_human; reason_codes = []; causal = []; blockers = [] }

abbrev good : Ruling
good = value_of (policy_result child "task_3" noon false) no_ruling

abbrev bad : Ruling
bad = value_of (policy_result at_risk "task_3" noon false) no_ruling

abbrev validity : Validity
validity = value_of (decision_validity child "task_3" noon) (validity_of no_ruling [])

abbrev expiry : Datetime
expiry = value_of (ready_expiry child "task_3" noon hour) noon

abbrev reviewed : Dict Value
reviewed =
    value_of
      (prepare_review service (fresh "5") boss (command 4 "key-5") "task_3" "decision_3"
        with_child).0
      []

abbrev baseline_response : Dict Value
baseline_response =
    value_of
      (mutate service (fresh "1") boss (command 1 "key-1") "baseline.set" []
        (baseline_change boss scope 100 hour) false none started).0
      []

abbrev second : Actor
second = record {
  actor_id = "reviewer-1";
  tenant_id = "tenant-1";
  role = reviewer;
  subjects = "vendor-1" ∷ [];
}

abbrev report : Report
report = record {
  report_id = "report_1";
  case_id = "case_4";
  case_version = 1;
  investigator_id = "investigator-1";
  basis_hash = value_of (investigation_basis at_risk "case_4") "";
  case_refs = "case_4" ∷ [];
  affected_tasks = "task_2" ∷ "task_3" ∷ [];
  precedent_ids = [];
  trace = [];
  model_receipt = none;
  planner_status = deterministic;
  raw_text_received_by_model = false;
  authoritative = false;
  report_root = "";
}

abbrev handed_over : Workspace
handed_over = record at_risk {
  reports = ("report_1", report) ∷ [];
  handoffs =
      (
        "handoff_1",
        record {
          handoff_id = "handoff_1";
          report_id = "report_1";
          case_id = "case_4";
          case_version = 1;
          reviewer_id = "reviewer-1";
          investigator_id = "investigator-1";
          accepted = true;
        },
      )
      ∷ [];
}

abbrev resolved_all : Workspace × Dict Value
resolved_all =
    value_of
      (resolve_change (fresh "6") second "case_4" "handoff_1" "resolved" "digest" handed_over 6)
      (child, [])

good_ready : good.verdict ≡ ready
unfolding running_casework
good_ready = refl

bad_deny : bad.verdict ≡ deny
unfolding running_casework
bad_deny = refl

suspended_child : map (λ e. e.1.status) at_risk.tasks ≡ suspended ∷ suspended ∷ []
unfolding running_casework
suspended_child = refl

policy_result-IsGrounded_example : IsGrounded child "task_3" noon false
unfolding running_casework
policy_result-IsGrounded_example = policy_result-IsGrounded child "task_3" noon false good refl refl

policy_result-Blocks_example :
    ((key : String) → (contains key bad.blockers ≡ true) ↔ Blocks at_risk "task_3" key)
    × ((bad.verdict ≡ deny) ↔ ((key : String) × Blocks at_risk "task_3" key))
unfolding running_casework
policy_result-Blocks_example = policy_result-Blocks at_risk "task_3" noon false bad refl

ready_expiry-bounded_example :
    (noon.instant < expiry.instant)
    × (expiry.instant ≤ hour.instant)
    × ((a : String) (t : Task)
        → Ancestor child.tasks a "task_3"
        → get a child.tasks ≡ some t
        → ((b : Baseline)
            → get (scope_key t.intent.scope) child.baselines ≡ some b
            → expiry.instant ≤ b.expires_at.instant)
          × ((d : Decision)
              → a ≢ "task_3"
              → decision_of child t ≡ some d
              → expiry.instant ≤ d.expires_at.instant))
unfolding running_casework
ready_expiry-bounded_example = ready_expiry-bounded child "task_3" noon hour expiry refl

child-IsDistinct : IsDistinct (keys child.tasks)
unfolding running_casework
child-IsDistinct = (refl {a = false}, (refl {a = false}, tt))

affected_tasks-Ancestor_example :
    (contains "task_3" (affected_tasks child.tasks scope) ≡ true)
    ↔ IsAffected child.tasks scope "task_3"
unfolding running_casework
affected_tasks-Ancestor_example =
    affected_tasks-Ancestor child.tasks child-IsDistinct scope "task_3"

ancestors-ends_example :
    ancestors child.tasks "task_3" ≢ err (recursion_error "maximum recursion depth exceeded")
ancestors-ends_example = ancestors-ends child.tasks "task_3" "maximum recursion depth exceeded"

ancestors-Topological_example :
    Topological child.tasks ("task_2" ∷ "task_3" ∷ [])
    × ((a : String)
        → contains a ("task_2" ∷ "task_3" ∷ []) ≡ true
        → Ancestor child.tasks a "task_3")
    × ((a : String)
        → Ancestor child.tasks a "task_3"
        → contains a ("task_2" ∷ "task_3" ∷ []) ≡ true)
unfolding running_casework
ancestors-Topological_example =
    ancestors-Topological child.tasks "task_3" ("task_2" ∷ "task_3" ∷ []) refl

abbrev child_task : Task
child_task = elim (get "task_3" child.tasks) [
  | none ↦ record {
    task_id = "";
    intent = intent;
    depends_on = [];
    taints = [];
    status = suspended;
    current_decision_id = none;
  }
  | some t ↦ t
]

invalidate-suspends_example :
    (IsAffected child.tasks scope "task_3"
      → IsSuspended "case:1" "NEW_RISK"
          (get "task_3" (invalidate scope "case:1" "NEW_RISK" child).tasks))
    × (¬ IsAffected child.tasks scope "task_3"
        → get "task_3" (invalidate scope "case:1" "NEW_RISK" child).tasks ≡ some child_task)
unfolding running_casework
invalidate-suspends_example =
    invalidate-suspends child scope "case:1" "NEW_RISK" "task_3" child_task child-IsDistinct refl

decision_validity-preparable_example :
    ((task : Task) × (get "task_3" child.tasks ≡ some task)
      × (task.taints ≡ [])
      × (task.status ≡ ready)
      × ((d : Decision) × (decision_of child task ≡ some d)
          × (d.verdict ≡ ready)
          × (noon.instant < d.expires_at.instant)
          × (task_basis child "task_3" ≡ ok d.basis_hash)))
    × ((key : String) → ¬ Blocks child "task_3" key)
    × ((a : String) (t : Task)
        → Ancestor child.tasks a "task_3"
        → get a child.tasks ≡ some t
        → IsCovered child noon t × (a ≢ "task_3" → IsCurrent child noon a t))
unfolding running_casework
decision_validity-preparable_example =
    decision_validity-preparable child "task_3" noon validity refl refl

prepare_review-MayReview_example :
    (w : Workspace) × (stored : Option Workspace) × ((service.store.lock "tenant-1" with_child).0
      ≡ ok tt)
    × ((service.store.load "tenant-1" (service.store.lock "tenant-1" with_child).1).0 ≡ ok stored)
    × (admitted boss "review.prepare" (review_payload "task_3" "decision_3") false stored ≡ ok w)
    × (d : Decision) × (get "decision_3" w.decisions ≡ some d)
    × (MayReview w (fresh "5") "task_3" d
        ⊎ ((t : Task) × (get "task_3" w.tasks ≡ some t) × MayReview w (fresh "5") t.task_id d))
unfolding running_casework
prepare_review-MayReview_example =
    prepare_review-MayReview service (fresh "5") boss (command 4 "key-5") "task_3" "decision_3"
      with_child reviewed refl

mutate-Outcome_example :
    IsServed service
      (fresh "1")
      boss
      (command 1 "key-1")
      "baseline.set"
      []
      (baseline_change boss scope 100 hour)
      false
      none
      started
      baseline_response
      (mutate service
        (fresh "1")
        boss
        (command 1 "key-1")
        "baseline.set"
        []
        (baseline_change boss scope 100 hour)
        false
        none
        started).1
unfolding running_casework
mutate-Outcome_example =
    mutate-Outcome service (fresh "1") boss (command 1 "key-1") "baseline.set" []
      (baseline_change boss scope 100 hour) false none started baseline_response refl

resolve_change-IsIndependent_example :
    (c : RiskCase) × IsIndependent handed_over second "case_4" "handoff_1" c
    × (get "case_4" resolved_all.0.cases ≡ some (resolved c second "resolved" 6))
    × ((k : String)
        → contains k (affected_tasks handed_over.tasks c.scope) ≡ true
        → IsStopped (get k resolved_all.0.tasks))
    × ((k : String)
        → contains k (affected_tasks handed_over.tasks c.scope) ≡ false
        → get k resolved_all.0.tasks ≡ get k handed_over.tasks)
unfolding running_casework
resolve_change-IsIndependent_example =
    resolve_change-IsIndependent (fresh "6") second "case_4" "handoff_1" "resolved" "digest"
      handed_over 6 resolved_all.0 resolved_all.1 refl

abbrev note_print : String
note_print =
    value_of (digest "command" (request_value boss (command 9 "key-9") "note.quarantine" [])) ""

abbrev note_key : String
note_key = value_of (digest "idempotency-key" (strings ("owner-1" ∷ "key-9" ∷ []))) ""

abbrev noted : Workspace × Dict Value
noted =
    value_of
      (carry_out (fresh "9") boss (command 4 "key-9") "note.quarantine" (note_change "hash") false
        none note_print note_key child)
      (child, [])

-- the workspace after another command under a key of its own
abbrev noted_again : Workspace × Dict Value
noted_again =
    value_of
      (carry_out (fresh "11") boss (command 5 "key-11") "note.quarantine" (note_change "next") false
        none
        (value_of (digest "command" (request_value boss (command 5 "key-11") "note.quarantine" []))
          "")
        (value_of (digest "idempotency-key" (strings ("owner-1" ∷ "key-11" ∷ []))) "") noted.0)
      (child, [])

mutate-repeats_example :
    mutate service
      (fresh "10")
      boss
      (command 9 "key-9")
      "note.quarantine"
      []
      (note_change "other")
      false
      none
      (some noted_again.0)
    ≡ (ok (repeated noted.1), some noted_again.0)
unfolding running_casework
mutate-repeats_example =
    mutate-repeats service (fresh "10") boss (command 9 "key-9") "note.quarantine" []
      (note_change "other") false none (some noted_again.0) noted_again.0 note_key note_print
      noted.1 refl refl refl refl refl refl refl
