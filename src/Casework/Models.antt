-- ===== src/Casework/Models.antt =====
-- src/proofops_casework/models.py: the records of a workspace. A counter that the code starts at 0
-- or 1 and only increases is a natural number. A `dict` of any keys is a dictionary of values.
use proofops_memoryguard.Base.{ℕ, String, Bool, true, false, Option, List, [], Dict}
use proofops_memoryguard.Python.Number.{Datetime}
use proofops_memoryguard.Python.Value.{Value}

pub data Verdict : Type 0 where
  ready deny needs_human : Verdict

pub data TaskStatus : Type 0 where
  ready deny needs_human suspended : TaskStatus

pub data Role : Type 0 where
  owner investigator reviewer viewer : Role

pub data CaseKind : Type 0 where
  dispute revocation : CaseKind

pub data CaseStatus : Type 0 where
  open_case resolved_case : CaseStatus

pub data PlannerStatus : Type 0 where
  deterministic remote degraded : PlannerStatus

pub record Actor : Type 0 where
  pub actor_id : String
  pub tenant_id : String
  pub role : Role
  pub subjects : List String

pub record Scope : Type 0 where
  pub subject_id : String
  pub chain_id : ℕ
  pub target : String
  pub method : String

pub record Intent : Type 0 where
  pub scope : Scope
  pub amount_minor : ℕ
  pub currency : String

pub record Command : Type 0 where
  pub idempotency_key : String
  pub session_id : String
  pub expected_revision : ℕ

pub record Baseline : Type 0 where
  pub scope : Scope
  pub version : ℕ
  pub limit_minor : ℕ
  pub expires_at : Datetime
  pub actor_id : String
  pub event_seq : ℕ

pub record RiskCase : Type 0 where
  pub case_id : String
  pub scope : Scope
  pub kind : CaseKind
  pub version : ℕ
  pub status : CaseStatus
  pub opened_by : String
  pub opened_seq : ℕ
  pub evidence_digest : String
  pub resolution : Option String
  pub resolved_by : Option String
  pub resolved_seq : Option ℕ

pub record Task : Type 0 where
  pub task_id : String
  pub intent : Intent
  pub depends_on : List String
  pub taints : Dict String
  pub status : TaskStatus
  pub current_decision_id : Option String

pub record Decision : Type 0 where
  pub decision_id : String
  pub task_id : String
  pub verdict : Verdict
  pub reason_codes : List String
  pub causal_refs : List String
  pub active_blockers : List String
  pub action_fingerprint : String
  pub basis_hash : String
  pub memory_revision : ℕ
  pub session_id : String
  pub runtime_id : String
  pub process_id : ℕ
  pub build_commit : String
  pub created_at : Datetime
  pub expires_at : Datetime
  pub tool : String
  pub proof_root : String
  pub executable : Bool

pub record Report : Type 0 where
  pub report_id : String
  pub case_id : String
  pub case_version : ℕ
  pub investigator_id : String
  pub basis_hash : String
  pub case_refs : List String
  pub affected_tasks : List String
  pub precedent_ids : List String
  pub trace : List (Dict Value)
  pub model_receipt : Option (Dict Value)
  pub planner_status : PlannerStatus
  pub raw_text_received_by_model : Bool
  pub authoritative : Bool
  pub report_root : String

pub record Handoff : Type 0 where
  pub handoff_id : String
  pub report_id : String
  pub case_id : String
  pub case_version : ℕ
  pub reviewer_id : String
  pub investigator_id : String
  pub accepted : Bool

pub record Workspace : Type 0 where
  pub schema_version : String
  pub tenant_id : String
  pub revision : ℕ
  pub baselines : Dict Baseline
  pub cases : Dict RiskCase
  pub case_history : Dict (List RiskCase)
  pub baseline_history : Dict (List Baseline)
  pub tasks : Dict Task
  pub decisions : Dict Decision
  pub reports : Dict Report
  pub handoffs : Dict Handoff
  pub lessons : Dict (Dict Value)
  pub artifacts : Dict (Dict Value)
  pub audit : List (Dict Value)
  pub idempotency : Dict (Dict Value)
  pub state_root : String

-- `Workspace(tenant_id=...)`
unfoldable pub new_workspace : String → Workspace
new_workspace tenant = record {
  schema_version = "memoryguard-casework/2";
  tenant_id = tenant;
  revision = 0;
  baselines = [];
  cases = [];
  case_history = [];
  baseline_history = [];
  tasks = [];
  decisions = [];
  reports = [];
  handoffs = [];
  lessons = [];
  artifacts = [];
  audit = [];
  idempotency = [];
  state_root = "";
}

-- the texts of the members
abbrev pub verdict_value : Verdict → String
verdict_value ready = "READY"
verdict_value deny = "DENY"
verdict_value needs_human = "NEEDS_HUMAN"

abbrev pub task_status_value : TaskStatus → String
task_status_value ready = "READY"
task_status_value deny = "DENY"
task_status_value needs_human = "NEEDS_HUMAN"
task_status_value suspended = "SUSPENDED"

abbrev pub role_value : Role → String
role_value owner = "owner"
role_value investigator = "investigator"
role_value reviewer = "reviewer"
role_value viewer = "viewer"

abbrev pub case_kind_value : CaseKind → String
case_kind_value dispute = "dispute"
case_kind_value revocation = "revocation"

abbrev pub case_status_value : CaseStatus → String
case_status_value open_case = "OPEN"
case_status_value resolved_case = "RESOLVED"

abbrev pub planner_value : PlannerStatus → String
planner_value deterministic = "DETERMINISTIC"
planner_value remote = "REMOTE"
planner_value degraded = "DEGRADED"

-- `task.status = verdict`
abbrev pub status_of : Verdict → TaskStatus
status_of ready = ready
status_of deny = deny
status_of needs_human = needs_human

abbrev pub is_open : RiskCase → Bool
is_open c = elim c.status [ open_case ↦ true | resolved_case ↦ false ]

abbrev pub is_resolved : RiskCase → Bool
is_resolved c = elim c.status [ open_case ↦ false | resolved_case ↦ true ]

abbrev pub is_ready_status : TaskStatus → Bool
is_ready_status ready = true
is_ready_status _ = false

abbrev pub is_ready : Verdict → Bool
is_ready ready = true
is_ready _ = false

abbrev pub is_deny : Verdict → Bool
is_deny deny = true
is_deny _ = false
