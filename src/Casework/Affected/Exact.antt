-- ===== src/Casework/Affected/Exact.antt =====
-- The propagation finds the tasks of the scope, and every task that rests on one of them.
use proofops_memoryguard.Base.{
  String, Bool, true, false, not, ◌&&◌, Option, none, some, List, [], ◌∷◌, ◌≡◌, refl, sym, ◌∙◌, ap,
  Dict, get, keys, contains, any_by, length, sorted_set, contains-sorted_set, ◌==◌, eq_iff, eq_refl,
  IsDistinct, inl, inr, ◌↔◌, Bool-cases, arith, length-filter_by-le, &&_parts,
}
use proofops_memoryguard.Python.Runtime.{Runtime}
use proofops_memoryguard.Casework.Models.{Scope, Task}
use proofops_memoryguard.Casework.Digest.{scope_key}
use proofops_memoryguard.Casework.Ancestors.Order.{Ancestor, itself, above}
use proofops_memoryguard.Casework.Affected.{
  rests_on, is_fresh, has_scope, added, spread, in_scope, affected_tasks,
}
use proofops_memoryguard.Casework.Affected.Chosen.{holds, contains-filter_by}
use proofops_memoryguard.Casework.Affected.Closed.{spread-closed, spread-keeps, spread-only}

-- a text that passes a test of a list
any_by_some :
    (xs ys : List String)
    → any_by (λ p. contains p ys) xs ≡ true
    → (p : String) × (contains p xs ≡ true) × (contains p ys ≡ true)
unfolding any_by contains
any_by_some [] ys h = absurd (cc h)
any_by_some (x ∷ xs) ys h = elim (Bool-cases (contains x ys)) [
  | inl e ↦ (x, rw (eq_refl x), e)
  | inr e ↦ let (p, i, j) = any_by_some xs ys (rw e at h) in (p, ground (arith, i), j)
]

any_by-true :
    (xs ys : List String) (p : String)
    → contains p xs ≡ true
    → contains p ys ≡ true
    → any_by (λ q. contains q ys) xs ≡ true
unfolding any_by contains
any_by-true [] ys p i j = cc
any_by-true (x ∷ xs) ys p i j = elim (Bool-cases (x == p)) [
  | inl e ↦ rw ((eq_iff x p).0 e, j)
  | inr e ↦ rw (any_by-true xs ys p (rw e at i) j) (ground arith)
]

-- what a test keeps is a task that passes it
holds-some :
    {V : Type 0} (test : String × V → Bool) (k : String) (o : Option V)
    → holds test k o ≡ true
    → (v : V) × (o ≡ some v) × (test (k, v) ≡ true)
holds-some test k none h = cc
holds-some test k (some v) h = (v, refl, h)

-- `k` rests on a task of the scope, which may be itself.
module _ ⦃runtime : Runtime⦄ where
  abbrev pub IsAffected : Dict Task → Scope → String → Type 0
  IsAffected tasks scope k =
      (a : String) × (t : Task) × (get a tasks ≡ some t)
      × (scope_key t.intent.scope ≡ scope_key scope)
      × Ancestor tasks a k

module _ (tasks : Dict Task) (u : IsDistinct (keys tasks)) ⦃runtime : Runtime⦄ (scope : Scope) where
  in_scope-IsAffected :
      (k : String) → contains k (in_scope tasks scope) ≡ true → IsAffected tasks scope k
  unfolding in_scope
  in_scope-IsAffected k i =
      let (t, found, same) =
        holds-some (has_scope scope) k (get k tasks)
          (sym (contains-filter_by (has_scope scope) k tasks u) ∙ i) in
      (k, t, found, (eq_iff (scope_key t.intent.scope) (scope_key scope)).0 same, itself)

  added-IsAffected :
      (result : List String) (s : String)
      → ((r : String) → contains r result ≡ true → IsAffected tasks scope r)
      → contains s (added tasks result) ≡ true
      → IsAffected tasks scope s
  unfolding added
  added-IsAffected result s h i =
      let (t, found, both) =
        holds-some (is_fresh result) s (get s tasks)
          (sym (contains-filter_by (is_fresh result) s tasks u) ∙ i) in
      let (p, up, reached) =
        any_by_some t.depends_on result
          (&&_parts (not (contains s result)) (rests_on result t) both).1 in
      let (a, b, known, same, rest) = h p reached in (a, b, known, same, above p t found up rest)

  known-in_scope :
      (k : String) (t : Task)
      → get k tasks ≡ some t
      → scope_key t.intent.scope ≡ scope_key scope
      → contains k (in_scope tasks scope) ≡ true
  unfolding in_scope
  known-in_scope k t e p =
      contains-filter_by (has_scope scope) k tasks u
      ∙ ap (holds (has_scope scope) k) e
      ∙ (eq_iff _ _).1 p

  closed-above :
      (result : List String)
      → added tasks result ≡ []
      → (a k : String) → Ancestor tasks a k
      → contains a result ≡ true
      → contains k result ≡ true
  unfolding added contains
  closed-above result h a k itself i = i
  closed-above result h a k (above p t found up rest) i =
      let below : contains p result ≡ true = closed-above result h a p rest i in
      let kept : holds (is_fresh result) k (get k tasks) ≡ false =
        sym (contains-filter_by (is_fresh result) k tasks u) ∙ ap (contains k) h in
      let step : (not (contains k result) && rests_on result t) ≡ false =
        sym (ap (holds (is_fresh result) k) found) ∙ kept in
      ground (arith, step, any_by-true t.depends_on result p up below)

-- In a workspace whose dictionary of tasks names each task once, a task is among the affected tasks of
-- a scope exactly when it is, or rests at any depth on, a known task whose scope has the key of that scope:
-- the propagation is run long enough to find them all, and finds no other.
pub affected_tasks-Ancestor :
    (tasks : Dict Task) (u : IsDistinct (keys tasks)) ⦃runtime : Runtime⦄ (scope : Scope)
    (k : String)
    → (contains k (affected_tasks tasks scope) ≡ true) ↔ IsAffected tasks scope k
unfolding affected_tasks
affected_tasks-Ancestor tasks u scope k = (found, reached)
  where
    start : List String
    start = in_scope tasks scope

    end : List String
    end = spread (length tasks) tasks start

    found : contains k (sorted_set end) ≡ true → IsAffected tasks scope k
    found i =
        spread-only tasks (IsAffected tasks scope) (added-IsAffected tasks u scope) (length tasks)
          start (in_scope-IsAffected tasks u scope) k (sym (contains-sorted_set k end) ∙ i)

    reached : IsAffected tasks scope k → contains k (sorted_set end) ≡ true
    reached (a, t, known, same, rest) =
        contains-sorted_set k end
        ∙ closed-above tasks u scope end
            (spread-closed tasks (length tasks) start (length-filter_by-le _ tasks)) a k rest
            (spread-keeps tasks (length tasks) start a
              (known-in_scope tasks u scope a t known same))
