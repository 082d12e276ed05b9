-- ===== src/Casework/Ruling/Denied.antt =====
-- When the policy denies a task: an open risk case in the scope of the task or of a task it rests on.
use proofops_memoryguard.Base.{
  String, Bool, true, not, ◌&&◌, Option, none, some, List, [], ◌∷◌, ◌++◌, Dict, get, keys, contains,
  contains-sort_texts, filter_by, IsIn, IsIn-filter_by, is_empty, sort_texts, ◌==◌, eq_iff, eq_refl,
  ◌≡◌, ◌≢◌, ◌↔◌, refl, sym, ◌∙◌, ap, subst, inl, inr, arith, Bool-cases, &&_parts, if_both, ltb,
  some-eq,
}
use proofops_memoryguard.Errors.{ok, bind_inversion, ok-injective}
use proofops_memoryguard.Python.Number.{Datetime}
use proofops_memoryguard.Python.Runtime.{Runtime}
use proofops_memoryguard.Casework.Models.{
  deny, Intent, Baseline, RiskCase, Task, Workspace, is_open,
}
use proofops_memoryguard.Casework.Digest.{scope_key}
use proofops_memoryguard.Casework.Ancestors.Order.{Ancestor}
use proofops_memoryguard.Casework.Affected.Chosen.{IsIn-keys}
use proofops_memoryguard.Casework.Basis.{item, closure, scopes_of}
use proofops_memoryguard.Casework.Basis.Closure.{
  closure-Ancestor, contains-scopes_of, scopes_of-contains,
}
use proofops_memoryguard.Casework.Ruling.{
  Ruling, Early, returned, going, asks, blocks, and_going, check_baseline, check_baselines,
  any_review, parents_of, passes, check_parents, rule, policy_result, is_past, versioned,
}

keys-IsIn :
    {V : Type 0} (k : String) (d : Dict V) → contains k (keys d) ≡ true → (v : V) × IsIn (k, v) d
unfolding contains
keys-IsIn k [] i = absurd (cc i)
keys-IsIn k ((j, v) ∷ d) i = elim (Bool-cases (j == k)) [
  | inl e ↦ (v, inl (ap (λ x. (x, v)) (sym ((eq_iff j k).0 e))))
  | inr e ↦ let (u, m) = keys-IsIn k d (ground (arith, i, e)) in (u, inr m)
]

first_of : (xs : List String) → xs ≢ [] → (x : String) × (contains x xs ≡ true)
unfolding contains
first_of [] n = absurd (n refl)
first_of (x ∷ xs) n = (x, rw (eq_refl x))

has_none : (xs : List String) (x : String) → xs ≡ [] → contains x xs ≢ true
unfolding contains
has_none [] x e i = cc i
has_none (y ∷ ys) x e i = absurd (cc e)

abbrev NotDenied : Ruling → Type 0
NotDenied r = (r.verdict ≢ deny) × (r.blockers ≡ [])

asks-NotDenied : (reason : String) (causal : List String) → NotDenied (asks reason causal)
asks-NotDenied reason causal = (λ p. cc p, refl)

passes-NotDenied :
    (task : Task) (review : Bool) (causal : List String) → NotDenied (passes task review causal)
passes-NotDenied task review causal =
    if_both NotDenied (not (is_empty task.taints) && not review)
      (asks-NotDenied "EXPLICIT_RECONSIDERATION_REQUIRED" causal) (λ p. cc p, refl)

abbrev ReturnsOpen : Early (List String) → Type 0
ReturnsOpen (returned r) = NotDenied r
ReturnsOpen (going refs) = Unit

ReturnsOpen-bind :
    (e : Early (List String)) (next : List String → Early (List String))
    → ReturnsOpen e
    → ((refs : List String) → ReturnsOpen (next refs))
    → ReturnsOpen (and_going e next)
ReturnsOpen-bind (returned r) next h k = h
ReturnsOpen-bind (going refs) next h k = k refs

module _ ⦃runtime : Runtime⦄ where
  check_baseline-open :
      (at : Datetime) (intent : Intent) (b : Option Baseline) (causal : List String)
      → ReturnsOpen (check_baseline at intent b causal)
  unfolding check_baseline
  check_baseline-open at intent none causal = asks-NotDenied "BASELINE_MISSING" causal
  check_baseline-open at intent (some b) causal =
      if_both ReturnsOpen (is_past b.expires_at at) (asks-NotDenied "BASELINE_EXPIRED" refs) (
        if_both ReturnsOpen (ltb b.limit_minor intent.amount_minor)
          (asks-NotDenied "LIMIT_EXCEEDED" refs) tt)
    where
      refs : List String
      refs = causal ++ versioned "baseline" (scope_key b.scope) b.version ∷ []

  check_baselines-open :
      (w : Workspace) (at : Datetime) (tasks : Dict Task) (causal : List String)
      → ReturnsOpen (check_baselines w at tasks causal)
  unfolding check_baselines
  check_baselines-open w at [] causal = tt
  check_baselines-open w at ((key, task) ∷ tasks) causal =
      ReturnsOpen-bind _ (check_baselines w at tasks) (check_baseline-open at task.intent _ causal)
        (check_baselines-open w at tasks)

  check_parents-NotDenied :
      (w : Workspace) (id : String) (at : Datetime) (review : Bool) (task : Task)
      (tasks : Dict Task) (e : Early (List String)) (r : Ruling)
      → ReturnsOpen e
      → check_parents w id at review task tasks e ≡ ok r
      → NotDenied r
  unfolding check_parents
  check_parents-NotDenied w id at review task tasks (returned q) r o h =
      subst NotDenied (ok-injective h) o
  check_parents-NotDenied w id at review task tasks (going causal) r o h =
      let (asked, _, end) = bind_inversion (any_review w at (parents_of id tasks)) _ h in
      subst NotDenied (ok-injective end) (
        if_both NotDenied asked (asks-NotDenied "DEPENDENCY_REVIEW_REQUIRED" causal)
          (passes-NotDenied task review causal))

  -- the ruling names the blockers that it is given, and denies if there are any
  rule-blockers :
      (w : Workspace) (id : String) (at : Datetime) (review : Bool) (task : Task)
      (tasks : Dict Task) (found : List String) (r : Ruling)
      → rule w id at review task tasks found ≡ ok r
      → (r.blockers ≡ found) × ((r.verdict ≡ deny) ↔ (found ≢ []))
  unfolding rule
  rule-blockers w id at review task tasks [] r h =
      let (others, none_found) =
        check_parents-NotDenied w id at review task tasks _ r (check_baselines-open w at tasks _)
          h in
      (none_found, (λ p. absurd (others p), λ n. absurd (n refl)))
  rule-blockers w id at review task tasks (b ∷ bs) r h =
      subst (λ (q : Ruling). (q.blockers ≡ b ∷ bs) × ((q.verdict ≡ deny) ↔ ((b ∷ bs) ≢ [])))
        (ok-injective h) (refl, (λ p q. cc q, λ n. refl))

  -- an open case in the scope of the task or of a task it rests on
  abbrev pub Blocks : Workspace → String → String → Type 0
  Blocks w id key =
      (c : RiskCase) × (a : String) × (t : Task) × IsIn (key, c) w.cases
      × (is_open c ≡ true)
      × Ancestor w.tasks a id
      × (get a w.tasks ≡ some t)
      × (scope_key t.intent.scope ≡ scope_key c.scope)

  blockers-Blocks :
      (w : Workspace) (id : String) (tasks : Dict Task) (key : String)
      → closure w id ≡ ok tasks
      → (contains key (sort_texts (keys (filter_by (blocks (scopes_of tasks)) w.cases))) ≡ true)
        ↔ Blocks w id key
  blockers-Blocks w id tasks key h = (found, listed)
    where
      found :
          contains key (sort_texts (keys (filter_by (blocks (scopes_of tasks)) w.cases))) ≡ true
          → Blocks w id key
      found i =
          let (c, m) = keys-IsIn key _ (sym (contains-sort_texts key _) ∙ i) in
          let (j, both) = IsIn-filter_by (blocks (scopes_of tasks)) (key, c) w.cases m in
          let (is, within) = &&_parts (is_open c) _ both in
          let (a, t, k, same) = scopes_of-contains (scope_key c.scope) tasks within in
          let (known, up) = (closure-Ancestor w id tasks h).1 a t k in
          (c, a, t, j, is, up, known, same)

      listed :
          Blocks w id key
          → contains key (sort_texts (keys (filter_by (blocks (scopes_of tasks)) w.cases))) ≡ true
      listed (c, a, t, j, is, up, known, same) =
          let (s, found', m) = (closure-Ancestor w id tasks h).0 a up in
          let one : s ≡ t = some-eq (sym found' ∙ known) in
          let within : contains (scope_key c.scope) (scopes_of tasks) ≡ true =
            subst (λ k. contains k (scopes_of tasks) ≡ true)
              (ap (λ (x : Task). scope_key x.intent.scope) one ∙ same)
              (contains-scopes_of a s tasks m) in
          contains-sort_texts key _
          ∙ IsIn-keys (blocks (scopes_of tasks)) (key, c) w.cases j (rw (is, within) refl)

-- Whatever verdict the policy returns: its blockers are exactly the open risk cases whose scope has the
-- key of the scope of the task or of a task that it rests on at any depth, and it denies exactly when
-- there is such a case.
pub policy_result-Blocks :
    ⦃runtime : Runtime⦄ (w : Workspace) (id : String) (at : Datetime) (review : Bool) (r : Ruling)
    → policy_result w id at review ≡ ok r
    → ((key : String) → (contains key r.blockers ≡ true) ↔ Blocks w id key)
      × ((r.verdict ≡ deny) ↔ ((key : String) × Blocks w id key))
unfolding policy_result
policy_result-Blocks w id at review r h =
    let (task, _, h1) = bind_inversion (item id w.tasks) _ h in
    let (tasks, closed, h2) = bind_inversion (closure w id) _ h1 in
    let (named, denied) = rule-blockers w id at review task tasks _ r h2 in
    (
      λ key. (
        λ i. (blockers-Blocks w id tasks key closed).0 (subst (λ x. contains key x ≡ true) named i),
        λ b.
            subst (λ x. contains key x ≡ true) (sym named)
              ((blockers-Blocks w id tasks key closed).1 b),
      ),
      (
        λ p.
            let (key, i) = first_of _ (denied.0 p) in
            (key, (blockers-Blocks w id tasks key closed).0 i),
        λ b. denied.1 (λ q. has_none _ b.0 q ((blockers-Blocks w id tasks b.0 closed).1 b.1)),
      ),
    )
