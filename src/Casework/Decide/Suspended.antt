-- ===== src/Casework/Decide/Suspended.antt =====
-- What a change of the memory does to the tasks: those that rest on the scope are suspended.
use proofops_memoryguard.Base.{
  String, true, false, Option, none, some, List, [], ◌∷◌, Dict, get, get-put, put, keys, contains,
  ◌==◌, eq_iff, eq_refl, IsDistinct, ◌≡◌, refl, sym, ◌∙◌, subst, inl, inr, Bool-cases, arith,
}
use proofops_memoryguard.Python.Runtime.{Runtime}
use proofops_memoryguard.Casework.Models.{Scope, Task, Workspace, suspended}
use proofops_memoryguard.Casework.Affected.{affected_tasks}
use proofops_memoryguard.Casework.Affected.Exact.{IsAffected, affected_tasks-Ancestor}
use proofops_memoryguard.Casework.Decide.{suspend, change_tasks, invalidate}

-- one task changed
step : (Task → Task) → String → Dict Task → Dict Task
step change key tasks = elim (get key tasks) [ none ↦ tasks | some t ↦ put key (change t) tasks ]

step-other :
    (change : Task → Task) (key k : String) (tasks : Dict Task)
    → (key == k) ≡ false
    → get k (step change key tasks) ≡ get k tasks
unfolding step
step-other change key k tasks h = go (get key tasks)
  where
    go :
        (o : Option Task)
        → get k (elim o [ none ↦ tasks | some t ↦ put key (change t) tasks ]) ≡ get k tasks
    go none = refl
    go (some t) = rw (get-put key k (change t) tasks, h) refl

step-same :
    (change : Task → Task) (k : String) (t : Task) (tasks : Dict Task)
    → get k tasks ≡ some t
    → get k (step change k tasks) ≡ some (change t)
unfolding step
step-same change k t tasks h = go (get k tasks) h
  where
    go :
        (o : Option Task)
        → o ≡ some t
        → get k (elim o [ none ↦ tasks | some s ↦ put k (change s) tasks ]) ≡ some (change t)
    go none e = absurd (cc e)
    go (some s) e = rw (get-put k k (change s) tasks, eq_refl k) (cc e)

module _ (token reason : String) where
  -- a task that carries the taint, and is suspended
  abbrev pub IsSuspended : Option Task → Type 0
  IsSuspended o =
      (t : Task) × (o ≡ some t) × (t.status ≡ suspended) × (get token t.taints ≡ some reason)

  suspend-IsSuspended : (t : Task) → IsSuspended (some (suspend token reason t))
  suspend-IsSuspended t = (
    suspend token reason t,
    refl,
    refl,
    rw (get-put token token reason t.taints, eq_refl token) refl,
  )

  step-IsSuspended :
      (key k : String) (tasks : Dict Task)
      → IsSuspended (get k tasks)
      → IsSuspended (get k (step (suspend token reason) key tasks))
  step-IsSuspended key k tasks (t, e, s, r) = elim (Bool-cases (key == k)) [
    | inl p ↦
        let same : k ≡ key = sym ((eq_iff key k).0 p) in
        subst (λ x. IsSuspended (get k (step (suspend token reason) x tasks))) same
          (subst IsSuspended (sym (step-same (suspend token reason) k t tasks e))
            (suspend-IsSuspended t))
    | inr p ↦ subst IsSuspended (sym (step-other (suspend token reason) key k tasks p)) (t, e, s, r)
  ]

  change_tasks-keeps :
      (ks : List String) (k : String) (tasks : Dict Task)
      → IsSuspended (get k tasks)
      → IsSuspended (get k (change_tasks (suspend token reason) ks tasks))
  unfolding change_tasks step
  change_tasks-keeps [] k tasks s = s
  change_tasks-keeps (key ∷ ks) k tasks s =
      change_tasks-keeps ks k _ (step-IsSuspended key k tasks s)

  change_tasks-IsSuspended :
      (ks : List String) (k : String) (t : Task) (tasks : Dict Task)
      → contains k ks ≡ true
      → get k tasks ≡ some t
      → IsSuspended (get k (change_tasks (suspend token reason) ks tasks))
  unfolding change_tasks step contains
  change_tasks-IsSuspended [] k t tasks i e = absurd (cc i)
  change_tasks-IsSuspended (key ∷ ks) k t tasks i e = elim (Bool-cases (key == k)) [
    | inl p ↦
        let same : k ≡ key = sym ((eq_iff key k).0 p) in
        change_tasks-keeps ks k (step (suspend token reason) key tasks) (
          subst (λ x. IsSuspended (get k (step (suspend token reason) x tasks))) same
            (subst IsSuspended (sym (step-same (suspend token reason) k t tasks e))
              (suspend-IsSuspended t)))
    | inr p ↦
        change_tasks-IsSuspended ks k t (step (suspend token reason) key tasks)
          (ground (arith, i, p)) (step-other (suspend token reason) key k tasks p ∙ e)
  ]

change_tasks-others :
    (change : Task → Task) (ks : List String) (k : String) (tasks : Dict Task)
    → contains k ks ≡ false
    → get k (change_tasks change ks tasks) ≡ get k tasks
unfolding change_tasks step contains
change_tasks-others change [] k tasks h = refl
change_tasks-others change (key ∷ ks) k tasks h =
    change_tasks-others change ks k (step change key tasks) (ground (arith, h))
    ∙ step-other change key k tasks (ground (arith, h))

-- When the memory of a scope changes, in a workspace whose dictionary of tasks names each task once:
-- every known task that rests on a task of the scope, at any depth or being one itself, is suspended and
-- carries the taint with its reason, and every other task stays as it was.
pub invalidate-suspends :
    ⦃runtime : Runtime⦄ (w : Workspace) (scope : Scope) (token reason k : String) (t : Task)
    → IsDistinct (keys w.tasks)
    → get k w.tasks ≡ some t
    → (IsAffected w.tasks scope k
        → IsSuspended token reason (get k (invalidate scope token reason w).tasks))
      × (¬ IsAffected w.tasks scope k → get k (invalidate scope token reason w).tasks ≡ some t)
unfolding invalidate
invalidate-suspends w scope token reason k t u known = (
  λ a.
      change_tasks-IsSuspended token reason (affected_tasks w.tasks scope) k t w.tasks
        ((affected_tasks-Ancestor w.tasks u scope k).1 a) known,
  λ n.
      change_tasks-others (suspend token reason) (affected_tasks w.tasks scope) k w.tasks
        (outside n)
      ∙ known,
)
  where
    outside : ¬ IsAffected w.tasks scope k → contains k (affected_tasks w.tasks scope) ≡ false
    outside n = elim (Bool-cases (contains k (affected_tasks w.tasks scope))) [
      | inl i ↦ absurd (n ((affected_tasks-Ancestor w.tasks u scope k).0 i))
      | inr i ↦ i
    ]
