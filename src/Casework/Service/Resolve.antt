-- ===== src/Casework/Service/Resolve.antt =====
-- `_valid_report`, `handoff`, `accept_handoff` and `resolve` of src/proofops_casework/service.py, with
-- `require_desk` of source_guard.py for a service without evidence desk: how a risk case is closed by a
-- second person.
pub mod Independent
use proofops_memoryguard.Base.{
  ℕ, suc, ◌+◌, String, Bool, true, false, not, ◌&&◌, ◌||◌, Option, none, some, List, [], ◌∷◌, ◌++◌,
  Dict, get, put, keys, contains, any_by, eqb, ◌==◌, if◌then◌else◌,
}
use proofops_memoryguard.Errors.{Result, ok, err, casework, raise_if, ◌>>=◌, ◌>>◌}
use proofops_memoryguard.Exec
use proofops_memoryguard.Exec.{Exec, lift}
use proofops_memoryguard.Python.Value.{
  Value, bool, str, list, dict, Items, nil, cons, strings, truthy, field?,
}
use proofops_memoryguard.Python.Runtime.{Runtime}
use proofops_memoryguard.Casework.Models.{
  Actor, Role, reviewer, investigator, Command, RiskCase, Task, Report, Handoff, Workspace,
  resolved_case, deny, needs_human, is_open, is_deny, role_value, case_kind_value,
}
use proofops_memoryguard.Casework.Values.{nat, plain, case_value, handoff_value}
use proofops_memoryguard.Casework.Digest.{digest, scope_key, authorize}
use proofops_memoryguard.Casework.Affected.{affected_tasks}
use proofops_memoryguard.Casework.Basis.{item, reads, investigation_basis}
use proofops_memoryguard.Casework.Ruling.{policy_result, versioned}
use proofops_memoryguard.Casework.Service.{Service, Fresh, Change, mutate, case_of, known_handoff}
use proofops_memoryguard.Casework.Service.Commands.{reviewers}
use proofops_memoryguard.Casework.Decide.{new_id}

abbrev investigators : List Role
investigators = investigator ∷ []

-- `any(t.get("tool") == "evidence.inspect" for t in report.trace)`
abbrev pub is_source_report : Report → Bool
is_source_report r = any_by (λ t. reads "tool" (str "evidence.inspect") t) r.trace

-- a value of a list or a dictionary that is there and is not empty, zero or false
abbrev pub is_set : Option Value → Bool
is_set none = false
is_set (some v) = truthy v

-- `any(r.get("source_id") for r in receipts)`
unfoldable pub any_source : Items → Bool
any_source nil = false
any_source (cons (dict d) rest) = is_set (field? "source_id" d) || any_source rest
any_source (cons v rest) = any_source rest

abbrev receipts_of : Option Value → Items
receipts_of (some (list xs)) = xs
receipts_of _ = nil

-- what a bundle of a report asks for; its lists and dictionaries have the shape in which they are written
unfoldable pub bundle_asks : Option Value → Bool
bundle_asks (some (dict bundle)) =
    is_set (field? "required_sources" bundle)
    || any_source (receipts_of (field? "receipts" bundle))
    || elim (field? "source_obligations" bundle) [
      | some (dict floor) ↦ elim (field? "configured_policy_required" floor) [
        | some v ↦ truthy v
        | none ↦ is_set (field? "resolution_requires_sources" bundle)
      ]
      | _ ↦ is_set (field? "resolution_requires_sources" bundle)
    ]
bundle_asks _ = false

-- whether one artifact makes the case depend on sources
abbrev pub asks_sources : Dict Value → Bool
asks_sources value =
    reads "kind" (str "SOURCE_POLICY_GUARD") value
      && (is_set (get "required_sources" value) || is_set (get "configured_policy_required" value))
    || (reads "kind" (str "SOURCE_REQUEST") value
        || reads "kind" (str "SOURCE_HEAD") value
        || reads "kind" (str "SOURCE_RECEIPT") value)
      && is_set (get "source_id" value)
    || reads "kind" (str "REPORT_EVIDENCE_BUNDLE") value && bundle_asks (get "bundle" value)

unfoldable pub has_obligations : Workspace → String → Bool
has_obligations w case_id =
    any_by (λ e. reads "case_id" (str case_id) e.1 && asks_sources e.1) w.artifacts

abbrev found_report : RiskCase → Option Report → Result Report
found_report c none = err (casework "REPORT_NOT_FOUND" 404)
found_report c (some r) =
    raise_if (not (r.case_id == c.case_id)) (casework "REPORT_NOT_FOUND" 404) >> ok r

-- the case after its resolution
abbrev pub resolved : RiskCase → Actor → String → ℕ → RiskCase
resolved c actor resolution seq = record c {
  status = resolved_case;
  version = c.version + 1;
  resolution = some resolution;
  resolved_by = some actor.actor_id;
  resolved_seq = some seq;
}

-- the handoff that lets the actor resolve the case
abbrev pub is_independent : Actor → String → RiskCase → Handoff → Bool
is_independent actor case_id c h =
    h.case_id == case_id
    && h.accepted
    && h.reviewer_id == actor.actor_id
    && not (c.opened_by == actor.actor_id)
    && not (h.investigator_id == actor.actor_id)

unfoldable pub independent_handoff : Actor → String → RiskCase → Option Handoff → Result Handoff
independent_handoff actor case_id c none =
    err (casework "ACKNOWLEDGED_INDEPENDENT_REVIEW_REQUIRED" 403)
independent_handoff actor case_id c (some h) =
    raise_if (not (is_independent actor case_id c h))
      (casework "ACKNOWLEDGED_INDEPENDENT_REVIEW_REQUIRED" 403)
    >> ok h

abbrev is_reviewer : Role → Bool
is_reviewer r = role_value r == "reviewer"

unfoldable pub chosen_reviewer : Actor → RiskCase → Option Actor → Result Actor
chosen_reviewer actor c none = err (casework "INDEPENDENT_REVIEWER_REQUIRED" 403)
chosen_reviewer actor c (some r) =
    raise_if
      (not (r.tenant_id == actor.tenant_id)
        || not (is_reviewer r.role)
        || not (contains c.scope.subject_id r.subjects)
        || actor.actor_id == r.actor_id
        || c.opened_by == r.actor_id)
      (casework "INDEPENDENT_REVIEWER_REQUIRED" 403)
    >> ok r

module _ ⦃runtime : Runtime⦄ where
  -- `_valid_report`
  unfoldable pub valid_report : Workspace → RiskCase → String → Result Report
  valid_report w c report_id = do
    r ← found_report c (get report_id w.reports)
    raise_if (not (eqb r.case_version c.version) || not (is_open c))
        (casework "STALE_INVESTIGATION" 409)
    basis ← investigation_basis w c.case_id
    raise_if (not (r.basis_hash == basis)) (casework "STALE_INVESTIGATION" 409)
    raise_if (is_source_report r || has_obligations w c.case_id)
        (casework "SOURCE_GUARD_UNAVAILABLE" 503)
    ok r

  unfoldable pub handoff_change : Dict Actor → Fresh → Actor → String → String → String → Change
  handoff_change actors fresh actor case_id report_id reviewer_id w seq = do
    c ← case_of w actor case_id
    r ← valid_report w c report_id
    chosen ← chosen_reviewer actor c (get reviewer_id actors)
    raise_if (not (r.investigator_id == actor.actor_id)) (casework "REPORT_OWNER_MISMATCH" 403)
    let h : Handoff = record {
      handoff_id = new_id fresh "handoff";
      report_id = r.report_id;
      case_id = case_id;
      case_version = c.version;
      reviewer_id = chosen.actor_id;
      investigator_id = actor.actor_id;
      accepted = false;
    }
    ok (record w { handoffs = put h.handoff_id h w.handoffs }, ("handoff", handoff_value h) ∷ [])

  unfoldable pub accept_change : Actor → String → Change
  accept_change actor handoff_id w seq = do
    h ← known_handoff actor (get handoff_id w.handoffs)
    c ← case_of w actor h.case_id
    r ← valid_report w c h.report_id
    raise_if (not (eqb h.case_version c.version)) (casework "STALE_HANDOFF" 409)
    let accepted = record h { accepted = true }
    ok (
      record w { handoffs = put handoff_id accepted w.handoffs },
      ("handoff", handoff_value accepted) ∷ [],
    )

  abbrev tainted : String → Task → Task
  tainted token t = record t { taints = put token "RECONSIDER_REQUIRED" t.taints }

  -- `for key in impacted`: no task is revived
  unfoldable pub reconsider_tasks : Fresh → String → List String → Workspace → Result Workspace
  reconsider_tasks fresh token [] w = ok w
  reconsider_tasks fresh token (key ∷ ks) w = do
    t ← item key w.tasks
    let marked = record w { tasks = put key (tainted token t) w.tasks }
    ruling ← policy_result marked key (fresh.task_at key) false
    let status = if is_deny ruling.verdict then deny else needs_human
    reconsider_tasks fresh token ks (record marked {
      tasks = put key (record (tainted token t) { status = status }) marked.tasks;
    })

  abbrev link_fields : Actor → String → RiskCase → Report → Handoff → String → ℕ → Dict Value
  link_fields actor case_id c r h evidence_digest seq =
      ("kind", str "CASE_RESOLUTION_PROOF")
      ∷ ("case_id", str case_id)
      ∷ ("case_version", nat c.version)
      ∷ ("report_id", str r.report_id)
      ∷ ("report_root", str r.report_root)
      ∷ ("handoff_id", str h.handoff_id)
      ∷ ("evidence_digest", str evidence_digest)
      ∷ ("reviewer_id", str actor.actor_id)
      ∷ ("event_seq", nat seq)
      ∷ ("executable", bool false)
      ∷ []

  -- the proof of the resolution, where the report rests on sources
  unfoldable pub link_resolution :
      Actor
      → String
      → RiskCase
      → Report
      → Handoff
      → String
      → ℕ
      → Dict (Dict Value)
      → Result (Dict (Dict Value))
  link_resolution actor case_id c r h evidence_digest seq artifacts = do
    sources ← digest "report-sources-key" (str r.report_id)
    link ← digest "resolution-link" (list (cons (str case_id) (cons (nat c.version) nil)))
    ok (
        if contains sources (keys artifacts)
        then put link (link_fields actor case_id c r h evidence_digest seq) artifacts
        else artifacts)

  abbrev lesson_of : Actor → String → RiskCase → Report → String → String → ℕ → Dict Value
  lesson_of actor case_id c r resolution evidence_digest seq =
      ("scope_key", str (scope_key c.scope))
      ∷ ("kind", str (case_kind_value c.kind))
      ∷ ("case_id", str case_id)
      ∷ ("case_version", nat c.version)
      ∷ ("resolved_seq", nat seq)
      ∷ ("report_id", str r.report_id)
      ∷ ("resolution", str resolution)
      ∷ ("reviewer_id", str actor.actor_id)
      ∷ ("evidence_digest", str evidence_digest)
      ∷ ("authority", bool false)
      ∷ []

  unfoldable pub resolve_change : Fresh → Actor → String → String → String → String → Change
  resolve_change fresh actor case_id handoff_id resolution evidence_digest w seq = do
    old ← case_of w actor case_id
    h ← independent_handoff actor case_id old (get handoff_id w.handoffs)
    r ← valid_report w old h.report_id
    raise_if (not (eqb h.case_version old.version)) (casework "STALE_HANDOFF" 409)
    let c = resolved old actor resolution seq
    artifacts ← link_resolution actor case_id c r h evidence_digest seq w.artifacts
    history ← item case_id w.case_history
    let closed = record w {
      cases = put case_id c w.cases;
      artifacts = artifacts;
      case_history = put case_id (history ++ c ∷ []) w.case_history;
    }
    let impacted = affected_tasks w.tasks c.scope
    marked ← reconsider_tasks fresh (versioned "resolution" case_id c.version) impacted closed
    let lesson_id = new_id fresh "lesson"
    ok (
      record marked {
        lessons =
            put lesson_id (lesson_of actor case_id c r resolution evidence_digest seq)
              marked.lessons;
      },
      ("case", case_value c)
          ∷ ("affected_tasks", strings impacted)
          ∷ ("lesson_id", str lesson_id)
          ∷ ("requires_explicit_reconsideration", bool true)
          ∷ [],
    )

module _ ⦃runtime : Runtime⦄ {M : Type 0} (service : Service M) (fresh : Fresh) (actor : Actor)
    (cmd : Command) where
  unfoldable pub handoff : String → String → String → Exec M (Dict Value)
  handoff case_id report_id reviewer_id = Exec.◌>>◌ (lift (authorize actor investigators none)) (
      mutate service fresh actor cmd "case.handoff"
        (("case_id", str case_id)
          ∷ ("report_id", str report_id)
          ∷ ("reviewer_id", str reviewer_id)
          ∷ [])
        (handoff_change service.actors fresh actor case_id report_id reviewer_id) false none)

  unfoldable pub accept_handoff : String → Exec M (Dict Value)
  accept_handoff handoff_id = Exec.◌>>◌ (lift (authorize actor reviewers none)) (
      mutate service fresh actor cmd "handoff.accept" (("handoff_id", str handoff_id) ∷ [])
        (accept_change actor handoff_id) false none)

  unfoldable pub resolve : String → String → String → String → Exec M (Dict Value)
  resolve case_id handoff_id resolution evidence_digest =
      Exec.◌>>◌ (lift (authorize actor reviewers none)) (
        mutate service fresh actor cmd "case.resolve"
          (("case_id", str case_id)
            ∷ ("handoff_id", str handoff_id)
            ∷ ("resolution", str resolution)
            ∷ ("evidence_digest", str evidence_digest)
            ∷ [])
          (resolve_change fresh actor case_id handoff_id resolution evidence_digest) false none)
