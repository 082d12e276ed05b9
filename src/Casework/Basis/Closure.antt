-- ===== src/Casework/Basis/Closure.antt =====
-- The closure of a task, its ancestors with their records: which tasks it holds.
use proofops_memoryguard.Base.{
  String, true, Option, none, some, List, [], ◌∷◌, ◌≡◌, refl, sym, ◌∙◌, ap, subst, Dict, get,
  contains, IsIn, inl, inr, ◌==◌, eq_iff, eq_refl, Bool-cases, arith,
}
use proofops_memoryguard.Errors.{ok, or_raise, outside, bind_inversion, ok-injective}
use proofops_memoryguard.Python.Runtime.{Runtime}
use proofops_memoryguard.Casework.Models.{Task, Workspace}
use proofops_memoryguard.Casework.Digest.{scope_key}
use proofops_memoryguard.Casework.Ancestors.{ancestors}
use proofops_memoryguard.Casework.Ancestors.Order.{Ancestor, ancestors-Topological}
use proofops_memoryguard.Casework.Basis.{item, entries_of, closure, scopes_of}

pub item-get : {V : Type 0} (k : String) (d : Dict V) {v : V} → item k d ≡ ok v → get k d ≡ some v
item-get {V} k d {v} h = go (get k d) h
  where
    go : (o : Option V) → or_raise o (outside "KeyError" k) ≡ ok v → o ≡ some v
    go none h = cc
    go (some u) h = ap some (ok-injective h)

module _ {V : Type 0} (d : Dict V) where
  abbrev Taken : List String → Dict V → Type 0
  Taken ks e =
      ((k : String) → contains k ks ≡ true → (v : V) × (get k d ≡ some v) × IsIn (k, v) e)
      × ((k : String) (v : V) → IsIn (k, v) e → (get k d ≡ some v) × (contains k ks ≡ true))

  Taken-cons :
      (k : String) (ks : List String) (v : V) (e : Dict V)
      → get k d ≡ some v
      → Taken ks e
      → Taken (k ∷ ks) ((k, v) ∷ e)
  unfolding contains
  Taken-cons k ks v e found (all, only) = (every, fewer)
    where
      every :
          (j : String)
          → contains j (k ∷ ks) ≡ true
          → (u : V) × (get j d ≡ some u) × IsIn (j, u) ((k, v) ∷ e)
      every j i = elim (Bool-cases (k == j)) [
        | inl q ↦
            let same : k ≡ j = (eq_iff k j).0 q in
            (v, ap (λ x. get x d) (sym same) ∙ found, inl (ap (λ x. (x, v)) (sym same)))
        | inr q ↦ let (u, g, m) = all j (ground (arith, i, q)) in (u, g, inr m)
      ]

      fewer :
          (j : String) (u : V)
          → IsIn (j, u) ((k, v) ∷ e)
          → (get j d ≡ some u) × (contains j (k ∷ ks) ≡ true)
      fewer j u (inl p) =
          let here : j ≡ k = ap (λ x. x.0) p in
          let same : u ≡ v = ap (λ x. x.1) p in (rw (here, same) found, rw (here, eq_refl k))
      fewer j u (inr m) = let (g, i) = only j u m in (g, ground (arith, i))

  entries_of-Taken :
      (ks : List String) (e : Dict V) → entries_of (λ k v. ok v) d ks ≡ ok e → Taken ks e
  unfolding entries_of contains
  entries_of-Taken [] e h =
      subst (Taken []) (ok-injective h) (λ k i. absurd (cc i), λ k v i. absurd i)
  entries_of-Taken (k ∷ ks) e h =
      let (v, found, rest) = bind_inversion (item k d) _ h in
      let (e', taken, end) = bind_inversion (entries_of (λ k v. ok v) d ks) _ rest in
      subst (Taken (k ∷ ks)) (ok-injective end)
        (Taken-cons k ks v e' (item-get k d found) (entries_of-Taken ks e' taken))

-- The closure holds the ancestors of the task, with their records, and nothing else.
pub closure-Ancestor :
    (w : Workspace) (id : String) (tasks : Dict Task)
    → closure w id ≡ ok tasks
    → ((a : String)
        → Ancestor w.tasks a id
        → (t : Task) × (get a w.tasks ≡ some t) × IsIn (a, t) tasks)
      × ((a : String) (t : Task)
          → IsIn (a, t) tasks
          → (get a w.tasks ≡ some t) × Ancestor w.tasks a id)
unfolding closure
closure-Ancestor w id tasks h =
    let (ks, walked, rest) = bind_inversion (ancestors w.tasks id) _ h in
    let (sorted, only, all) = ancestors-Topological w.tasks id ks walked in
    let (every, fewer) = entries_of-Taken w.tasks ks tasks rest in
    (λ a up. every a (all a up), λ a t i. let (g, j) = fewer a t i in (g, only a j))

module _ ⦃runtime : Runtime⦄ where
  pub contains-scopes_of :
      (a : String) (t : Task) (tasks : Dict Task)
      → IsIn (a, t) tasks
      → contains (scope_key t.intent.scope) (scopes_of tasks) ≡ true
  unfolding scopes_of contains
  contains-scopes_of a t [] i = absurd i
  contains-scopes_of a t ((b, s) ∷ tasks) (inl p) =
      let same : t ≡ s = ap (λ x. x.1) p in rw (same, eq_refl (scope_key s.intent.scope))
  contains-scopes_of a t ((b, s) ∷ tasks) (inr i) = ground (arith, contains-scopes_of a t tasks i)

  pub scopes_of-contains :
      (key : String) (tasks : Dict Task)
      → contains key (scopes_of tasks) ≡ true
      → (a : String) × (t : Task) × IsIn (a, t) tasks × (scope_key t.intent.scope ≡ key)
  unfolding scopes_of contains
  scopes_of-contains key [] i = absurd (cc i)
  scopes_of-contains key ((b, s) ∷ tasks) i = elim (Bool-cases (scope_key s.intent.scope == key)) [
    | inl e ↦ (b, s, inl refl, (eq_iff (scope_key s.intent.scope) key).0 e)
    | inr e ↦
        let (a, t, j, same) = scopes_of-contains key tasks (ground (arith, i, e)) in
        (a, t, inr j, same)
  ]
