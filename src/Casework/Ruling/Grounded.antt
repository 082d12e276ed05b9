-- ===== src/Casework/Ruling/Grounded.antt =====
-- What stands behind READY: every task it rests on has a baseline that holds and, but for the task
-- itself, a decision that is still good.
use proofops_memoryguard.Base.{
  ◌<◌, ◌≤◌, String, Bool, true, false, not, ◌&&◌, Option, none, some, List, [], ◌∷◌, Dict, get,
  filter_by-IsIn, IsIn, is_empty, ◌==◌, eq_iff, ◌≡◌, ◌≢◌, refl, sym, ◌∙◌, ap, subst, inl, inr, ◌⊎◌,
  arith, Bool-cases, if◌then◌else◌, if_both, not_ne-eq, ltb, some-eq,
}
use proofops_memoryguard.Errors.{ok, bind_inversion, ok-injective}
use proofops_memoryguard.Python.Number.{Datetime}
use proofops_memoryguard.Python.Runtime.{Runtime}
use proofops_memoryguard.Casework.Models.{
  Verdict, ready, deny, needs_human, TaskStatus, suspended, Intent, Baseline, Task, Decision,
  Workspace, is_ready, is_ready_status,
}
use proofops_memoryguard.Casework.Digest.{scope_key}
use proofops_memoryguard.Casework.Ancestors.Order.{Ancestor}
use proofops_memoryguard.Casework.Basis.{item, closure, scopes_of, task_basis}
use proofops_memoryguard.Casework.Basis.Closure.{closure-Ancestor, item-get}
use proofops_memoryguard.Casework.Ruling.{
  Ruling, Early, returned, going, and_going, asks, check_baseline, check_baselines, needs_review,
  any_review, parents_of, passes, check_parents, rule, case_refs, policy_result, is_past, is_stale,
  decision_of,
}
use proofops_memoryguard.Casework.Ruling.Denied.{Blocks, policy_result-Blocks}

going_inversion :
    {A B : Type 0} (e : Early A) (next : A → Early B) {b : B}
    → and_going e next ≡ going b
    → (a : A) × (e ≡ going a) × (next a ≡ going b)
going_inversion (returned r) next h = absurd (cc h)
going_inversion (going a) next h = (a, refl, h)

pub is_ready_inversion : (v : Verdict) → is_ready v ≡ true → v ≡ ready
is_ready_inversion ready h = refl
is_ready_inversion deny h = cc
is_ready_inversion needs_human h = cc

is_ready_status_inversion : (s : TaskStatus) → is_ready_status s ≡ true → s ≡ ready
is_ready_status_inversion ready h = refl
is_ready_status_inversion deny h = cc
is_ready_status_inversion needs_human h = cc
is_ready_status_inversion suspended h = cc

is_empty_inversion : {A : Type 0} (xs : List A) → is_empty xs ≡ true → xs ≡ []
is_empty_inversion [] h = refl
is_empty_inversion (x ∷ xs) h = absurd (cc h)

-- a call that ends early never says READY
abbrev NotReady : Early (List String) → Type 0
NotReady (returned r) = r.verdict ≢ ready
NotReady (going refs) = Unit

NotReady-bind :
    (e : Early (List String)) (next : List String → Early (List String))
    → NotReady e
    → ((refs : List String) → NotReady (next refs))
    → NotReady (and_going e next)
NotReady-bind (returned r) next h k = h
NotReady-bind (going refs) next h k = k refs

split_ready :
    (b : Bool) (reason : String) (causal : List String) (r : Ruling)
    → (if b then asks reason causal else r).verdict ≡ ready
    → (b ≡ false) × (r.verdict ≡ ready)
split_ready true reason causal r h = absurd (cc h)
split_ready false reason causal r h = (refl, h)

passes-ready :
    (task : Task) (review : Bool) (causal : List String)
    → (passes task review causal).verdict ≡ ready
    → (task.taints ≡ []) ⊎ (review ≡ true)
passes-ready task review causal h =
    let (calm, _) = split_ready (not (is_empty task.taints) && not review) _ causal _ h in
    elim (Bool-cases review) [
      | inl e ↦ inr e
      | inr e ↦ inl (is_empty_inversion task.taints (ground (arith, calm, e)))
    ]

module _ ⦃runtime : Runtime⦄ where
  -- A baseline of the task's scope that has not expired allows its amount.
  abbrev pub IsCovered : Workspace → Datetime → Task → Type 0
  IsCovered w at t =
      (b : Baseline) × (get (scope_key t.intent.scope) w.baselines ≡ some b)
      × (at.instant < b.expires_at.instant)
      × (t.intent.amount_minor ≤ b.limit_minor)

  -- The parent is READY without taints, under a decision of its own that has not expired and was made
  -- on the memory as it is.
  abbrev pub IsCurrent : Workspace → Datetime → String → Task → Type 0
  IsCurrent w at a t =
      (d : Decision) × (decision_of w t ≡ some d)
      × (t.status ≡ ready)
      × (t.taints ≡ [])
      × (d.verdict ≡ ready)
      × (d.task_id ≡ a)
      × (at.instant < d.expires_at.instant)
      × (task_basis w a ≡ ok d.basis_hash)

  check_baseline-IsCovered :
      (w : Workspace) (at : Datetime) (t : Task) (o : Option Baseline) (causal refs : List String)
      → get (scope_key t.intent.scope) w.baselines ≡ o
      → check_baseline at t.intent o causal ≡ going refs
      → IsCovered w at t
  unfolding check_baseline
  check_baseline-IsCovered w at t none causal refs found h = absurd (cc h)
  check_baseline-IsCovered w at t (some b) causal refs found h =
      (b, found, ground (arith, h), ground (arith, h))

  needs_review-IsCurrent :
      (w : Workspace) (at : Datetime) (a : String) (t : Task) (o : Option Decision)
      → decision_of w t ≡ o
      → needs_review w at a t o ≡ ok false
      → IsCurrent w at a t
  unfolding needs_review
  needs_review-IsCurrent w at a t none found h = absurd (cc h)
  needs_review-IsCurrent w at a t (some d) found h = elim (Bool-cases (is_stale at a t d)) [
    | inl e ↦ absurd (ground (arith, rw e at h))
    | inr e ↦
        let (basis, hashed, same) = bind_inversion (task_basis w a) _ (rw e at h) in
        let bound : d.basis_hash ≡ basis = not_ne-eq d.basis_hash basis (ok-injective same) in
        (
          d,
          found,
          is_ready_status_inversion t.status (ground (arith, e)),
          is_empty_inversion t.taints (ground (arith, e)),
          is_ready_inversion d.verdict (ground (arith, e)),
          (eq_iff d.task_id a).0 (ground (arith, e)),
          ground (arith, e),
          rw bound hashed,
        )
  ]

  check_baselines-IsCovered :
      (w : Workspace) (at : Datetime) (tasks : Dict Task) (causal refs : List String)
      → check_baselines w at tasks causal ≡ going refs
      → (a : String) (t : Task) → IsIn (a, t) tasks
      → IsCovered w at t
  unfolding check_baselines
  check_baselines-IsCovered w at [] causal refs h a t i = absurd i
  check_baselines-IsCovered w at ((key, task) ∷ tasks) causal refs h a t i =
      let (next, first, rest) = going_inversion _ (check_baselines w at tasks) h in
      elim i [
        | inl p ↦
            let same : t ≡ task = ap (λ x. x.1) p in
            subst (IsCovered w at) (sym same)
              (check_baseline-IsCovered w at task _ causal next refl first)
        | inr j ↦ check_baselines-IsCovered w at tasks next refs rest a t j
      ]

  any_review-IsCurrent :
      (w : Workspace) (at : Datetime) (tasks : Dict Task)
      → any_review w at tasks ≡ ok false
      → (a : String) (t : Task) → IsIn (a, t) tasks
      → IsCurrent w at a t
  unfolding any_review
  any_review-IsCurrent w at [] h a t i = absurd i
  any_review-IsCurrent w at ((key, task) ∷ tasks) h a t i =
      let (stop, first, rest) =
        bind_inversion (needs_review w at key task (decision_of w task)) _ h in
      let (none_here, later) = both stop rest in
      elim i [
        | inl p ↦
            subst (λ (e : String × Task). IsCurrent w at e.0 e.1) (sym p)
              (needs_review-IsCurrent w at key task _ refl (first ∙ ap ok none_here))
        | inr j ↦ any_review-IsCurrent w at tasks later a t j
      ]
    where
      both :
          (b : Bool)
          → (if b then ok true else any_review w at tasks) ≡ ok false
          → (b ≡ false) × (any_review w at tasks ≡ ok false)
      both true e = absurd (cc (ok-injective e))
      both false e = (refl, e)

  check_baseline-NotReady :
      (at : Datetime) (intent : Intent) (o : Option Baseline) (causal : List String)
      → NotReady (check_baseline at intent o causal)
  unfolding check_baseline
  check_baseline-NotReady at intent none causal = λ p. cc p
  check_baseline-NotReady at intent (some b) causal =
      if_both NotReady (is_past b.expires_at at) (λ p. cc p)
        (if_both NotReady (ltb b.limit_minor intent.amount_minor) (λ p. cc p) tt)

  check_baselines-NotReady :
      (w : Workspace) (at : Datetime) (tasks : Dict Task) (causal : List String)
      → NotReady (check_baselines w at tasks causal)
  unfolding check_baselines
  check_baselines-NotReady w at [] causal = tt
  check_baselines-NotReady w at ((key, task) ∷ tasks) causal =
      NotReady-bind _ (check_baselines w at tasks) (check_baseline-NotReady at task.intent _ causal)
        (check_baselines-NotReady w at tasks)

  -- a READY behind the baselines
  check_parents-ready :
      (w : Workspace) (id : String) (at : Datetime) (review : Bool) (task : Task)
      (tasks : Dict Task) (e : Early (List String)) (r : Ruling)
      → NotReady e
      → r.verdict ≡ ready
      → check_parents w id at review task tasks e ≡ ok r
      → ((refs : List String) × (e ≡ going refs))
        × (any_review w at (parents_of id tasks) ≡ ok false)
        × ((task.taints ≡ []) ⊎ (review ≡ true))
  unfolding check_parents
  check_parents-ready w id at review task tasks (returned q) r other is h =
      absurd (other (ap (λ (x : Ruling). x.verdict) (ok-injective h) ∙ is))
  check_parents-ready w id at review task tasks (going refs) r other is h =
      let (asked, reviewed, end) = bind_inversion (any_review w at (parents_of id tasks)) _ h in
      let said : (if asked
            then asks "DEPENDENCY_REVIEW_REQUIRED" refs
            else passes task review refs).verdict
          ≡ ready =
        ap (λ (x : Ruling). x.verdict) (ok-injective end) ∙ is in
      let (calm, passed) =
        split_ready asked "DEPENDENCY_REVIEW_REQUIRED" refs (passes task review refs) said in
      ((refs, refl), reviewed ∙ ap ok calm, passes-ready task review refs passed)

  rule-ready :
      (w : Workspace) (id : String) (at : Datetime) (review : Bool) (task : Task)
      (tasks : Dict Task) (found : List String) (r : Ruling)
      → r.verdict ≡ ready
      → rule w id at review task tasks found ≡ ok r
      → ((refs : List String) × (check_baselines w at tasks (case_refs w.cases (scopes_of tasks))
            ≡ going refs))
        × (any_review w at (parents_of id tasks) ≡ ok false)
        × ((task.taints ≡ []) ⊎ (review ≡ true))
  unfolding rule
  rule-ready w id at review task tasks [] r is h =
      check_parents-ready w id at review task tasks _ r (check_baselines-NotReady w at tasks _) is h
  rule-ready w id at review task tasks (b ∷ bs) r is h =
      absurd (cc (ap (λ (x : Ruling). x.verdict) (ok-injective h), is))

module _ ⦃runtime : Runtime⦄ where
  -- what READY rests on
  abbrev pub IsGrounded : Workspace → String → Datetime → Bool → Type 0
  IsGrounded w id at review =
      ((task : Task) × (get id w.tasks ≡ some task) × ((task.taints ≡ []) ⊎ (review ≡ true)))
      × ((key : String) → ¬ Blocks w id key)
      × ((a : String) (t : Task)
          → Ancestor w.tasks a id
          → get a w.tasks ≡ some t
          → IsCovered w at t × (a ≢ id → IsCurrent w at a t))

ne_true : (a b : String) → a ≢ b → not (a == b) ≡ true
ne_true a b n = elim (Bool-cases (a == b)) [ inl e ↦ absurd (n ((eq_iff a b).0 e)) | inr e ↦ rw e ]

-- When the policy says READY: the task is known and untainted, or the review is explicit; no open case
-- is in the scope of the task or of a task it rests on; each of these tasks has an unexpired baseline
-- that allows its amount; and each of them but the task itself is READY and untainted, under a decision
-- of its own that has not expired and whose basis is the hash of the memory as it is.
pub policy_result-IsGrounded :
    ⦃runtime : Runtime⦄ (w : Workspace) (id : String) (at : Datetime) (review : Bool) (r : Ruling)
    → policy_result w id at review ≡ ok r
    → r.verdict ≡ ready
    → IsGrounded w id at review
unfolding policy_result
policy_result-IsGrounded w id at review r h is =
    let (task, found, h1) = bind_inversion (item id w.tasks) _ h in
    let (tasks, closed, h2) = bind_inversion (closure w id) _ h1 in
    let ((refs, e), calm, clean) = rule-ready w id at review task tasks _ r is h2 in
    (
      (task, item-get id w.tasks found, clean),
      λ key b. cc ((policy_result-Blocks w id at review r h).1.1 (key, b), is),
      λ a t up known.
          let (s, k, i) = (closure-Ancestor w id tasks closed).0 a up in
          let j : IsIn (a, t) tasks =
            subst (λ (x : Task). IsIn (a, x) tasks) (some-eq (sym k ∙ known)) i in
          (
            check_baselines-IsCovered w at tasks _ refs e a t j,
            λ other.
                any_review-IsCurrent w at (parents_of id tasks) calm a t
                  (filter_by-IsIn (λ e. not (e.0 == id)) (a, t) tasks j (ne_true a id other)),
          ),
    )
