-- ===== src/Casework/Validity/Preparable.antt =====
-- What it takes for a review to be prepared.
use proofops_memoryguard.Base.{
  ◌<◌, String, Bool, true, false, not, ◌&&◌, ◌||◌, Option, none, some, List, [], ◌∷◌, ◌++◌, get,
  is_empty, ◌==◌, eq_iff, ◌≡◌, ◌≢◌, refl, sym, ◌∙◌, ap, inl, inr, ◌⊎◌, arith, &&_parts, some-eq,
  not_ne-eq, sort_texts,
}
use proofops_memoryguard.Errors.{ok, bind_inversion, ok-injective}
use proofops_memoryguard.Python.Number.{Datetime}
use proofops_memoryguard.Python.Runtime.{Runtime}
use proofops_memoryguard.Casework.Models.{
  Verdict, ready, deny, needs_human, TaskStatus, suspended, Task, Decision, Workspace,
  verdict_value, task_status_value, is_ready,
}
use proofops_memoryguard.Casework.Ancestors.Order.{Ancestor}
use proofops_memoryguard.Casework.Basis.{item, task_basis}
use proofops_memoryguard.Casework.Basis.Closure.{item-get}
use proofops_memoryguard.Casework.Ruling.{Ruling, policy_result, is_past, decision_of}
use proofops_memoryguard.Casework.Ruling.Denied.{Blocks}
use proofops_memoryguard.Casework.Ruling.Grounded.{
  IsCovered, IsCurrent, policy_result-IsGrounded, is_ready_inversion,
}
use proofops_memoryguard.Casework.Validity.{
  Validity, reason_if, texts_eq, invalid_reasons, judge, decision_validity,
}

verdict_value-ready : (v : Verdict) → verdict_value v ≡ "READY" → v ≡ ready
verdict_value-ready ready h = refl
verdict_value-ready deny h = absurd (cc ((eq_iff "DENY" "READY").1 h))
verdict_value-ready needs_human h = absurd (cc ((eq_iff "NEEDS_HUMAN" "READY").1 h))

task_status_value-ready : (s : TaskStatus) → task_status_value s ≡ "READY" → s ≡ ready
task_status_value-ready ready h = refl
task_status_value-ready deny h = absurd (cc ((eq_iff "DENY" "READY").1 h))
task_status_value-ready needs_human h = absurd (cc ((eq_iff "NEEDS_HUMAN" "READY").1 h))
task_status_value-ready suspended h = absurd (cc ((eq_iff "SUSPENDED" "READY").1 h))

empty_parts :
    {A : Type 0} (xs ys : List A)
    → is_empty (xs ++ ys) ≡ true
    → (is_empty xs ≡ true) × (is_empty ys ≡ true)
empty_parts [] ys h = (refl, h)
empty_parts (x ∷ xs) ys h = absurd (cc h)

reason_if-none : (b : Bool) (reason : String) → is_empty (reason_if b reason) ≡ true → b ≡ false
reason_if-none true reason h = absurd (cc h)
reason_if-none false reason h = refl

-- no reason at all
invalid_reasons-none :
    (at : Datetime) (task : Task) (ruling : Ruling) (d : Decision) (basis : String)
    → is_empty (invalid_reasons at task ruling d basis) ≡ true
    → (is_past d.expires_at at ≡ false)
      × (d.basis_hash ≡ basis)
      × (task_status_value task.status ≡ verdict_value d.verdict)
      × (verdict_value d.verdict ≡ verdict_value ruling.verdict)
invalid_reasons-none at task ruling d basis h =
    let (h3, policy) = empty_parts _ (reason_if _ "CURRENT_POLICY_CHANGED") h in
    let (h2, status) = empty_parts _ (reason_if _ "TASK_STATUS_CHANGED") h3 in
    let (expiry, memory) =
      empty_parts (reason_if _ "DECISION_EXPIRED") (reason_if _ "MEMORY_BASIS_CHANGED") h2 in
    let changed : (not (verdict_value d.verdict == verdict_value ruling.verdict)
          || not (texts_eq (sort_texts d.reason_codes) (sort_texts ruling.reason_codes)))
        ≡ false =
      reason_if-none _ "CURRENT_POLICY_CHANGED" policy in
    (
      reason_if-none _ "DECISION_EXPIRED" expiry,
      not_ne-eq _ _ (reason_if-none _ "MEMORY_BASIS_CHANGED" memory),
      not_ne-eq _ _ (reason_if-none _ "TASK_STATUS_CHANGED" status),
      not_ne-eq _ _ (ground (arith, changed)),
    )

module _ ⦃runtime : Runtime⦄ where
  judge-preparable :
      (w : Workspace) (id : String) (at : Datetime) (task : Task) (ruling : Ruling)
      (o : Option Decision) (v : Validity)
      → judge w id at task ruling o ≡ ok v
      → v.review_preparable ≡ true
      → (ruling.verdict ≡ ready)
        × (task.status ≡ ready)
        × ((d : Decision) × (o ≡ some d)
            × (d.verdict ≡ ready)
            × (at.instant < d.expires_at.instant)
            × (task_basis w id ≡ ok d.basis_hash))
  unfolding judge
  judge-preparable w id at task ruling none v h p = absurd (cc (h, p))
  judge-preparable w id at task ruling (some d) v h p =
      let (basis, hashed, made) = bind_inversion (task_basis w id) _ h in
      let both : (is_empty (invalid_reasons at task ruling d basis) && is_ready ruling.verdict)
          ≡ true =
        ap (λ (x : Validity). x.review_preparable) (ok-injective made) ∙ p in
      let (clean, is) = &&_parts (is_empty (invalid_reasons at task ruling d basis)) _ both in
      let (future, same, status, verdict) = invalid_reasons-none at task ruling d basis clean in
      let ruled : ruling.verdict ≡ ready = is_ready_inversion ruling.verdict is in
      let given : verdict_value d.verdict ≡ "READY" =
        verdict ∙ ap (λ (u : Verdict). verdict_value u) ruled in
      (
        ruled,
        task_status_value-ready task.status (status ∙ given),
        (
          d,
          refl,
          verdict_value-ready d.verdict given,
          ground (arith, future),
          hashed ∙ ap ok (sym same),
        ),
      )

-- When the validity of a decision says that a review may be prepared, the task is known, READY and
-- untainted, under a decision of verdict READY that has not expired and whose basis is the hash of the
-- memory as it is; no open case is in the scope of the task or of a task it rests on; and each task it
-- rests on has an unexpired baseline that allows its amount and is itself under such a decision of its own.
pub decision_validity-preparable :
    ⦃runtime : Runtime⦄ (w : Workspace) (id : String) (at : Datetime) (v : Validity)
    → decision_validity w id at ≡ ok v
    → v.review_preparable ≡ true
    → ((task : Task) × (get id w.tasks ≡ some task)
        × (task.taints ≡ [])
        × (task.status ≡ ready)
        × ((d : Decision) × (decision_of w task ≡ some d)
            × (d.verdict ≡ ready)
            × (at.instant < d.expires_at.instant)
            × (task_basis w id ≡ ok d.basis_hash)))
      × ((key : String) → ¬ Blocks w id key)
      × ((a : String) (t : Task)
          → Ancestor w.tasks a id
          → get a w.tasks ≡ some t
          → IsCovered w at t × (a ≢ id → IsCurrent w at a t))
unfolding decision_validity
decision_validity-preparable w id at v h p =
    let (task, found, h1) = bind_inversion (item id w.tasks) _ h in
    let (ruling, ruled, h2) = bind_inversion (policy_result w id at false) _ h1 in
    let (is, status, d) = judge-preparable w id at task ruling _ v h2 p in
    let (known, blocks, above) = policy_result-IsGrounded w id at false ruling ruled is in
    (
      (task, item-get id w.tasks found, clean known (item-get id w.tasks found), status, d),
      blocks,
      above,
    )
  where
    clean :
        {task : Task}
        → (s : Task) × (get id w.tasks ≡ some s) × ((s.taints ≡ []) ⊎ (false ≡ true))
        → get id w.tasks ≡ some task
        → task.taints ≡ []
    clean (s, e, inl c) f = ap (λ (x : Task). x.taints) (some-eq (sym f ∙ e)) ∙ c
    clean (s, e, inr n) f = absurd (cc n)
