-- ===== src/Casework/Validity/Expiry.antt =====
-- How long a READY decision may hold.
use proofops_memoryguard.Base.{
  ◌<◌, ◌≤◌, String, Bool, true, false, some, List, [], ◌∷◌, ◌++◌, Dict, get, IsIn, IsIn-append_left,
  ◌==◌, eq_iff, ◌≡◌, ◌≢◌, refl, sym, ◌∙◌, subst, inl, inr, ◌⊎◌, arith, Bool-cases, if◌then◌else◌,
  ltb, some-eq,
}
use proofops_memoryguard.Errors.{ok, raise_if_inversion, bind_inversion, ok-injective}
use proofops_memoryguard.Python.Number.{Datetime}
use proofops_memoryguard.Python.Runtime.{Runtime}
use proofops_memoryguard.Casework.Models.{Task, Baseline, Decision, Workspace}
use proofops_memoryguard.Casework.Digest.{scope_key}
use proofops_memoryguard.Casework.Ancestors.Order.{Ancestor}
use proofops_memoryguard.Casework.Basis.{closure}
use proofops_memoryguard.Casework.Basis.Closure.{closure-Ancestor}
use proofops_memoryguard.Casework.Ruling.{is_past, decision_of}
use proofops_memoryguard.Casework.Validity.{
  listed, sooner, earliest, baseline_limits, decision_limits, limits, ready_expiry,
}

sooner-le :
    (u t : Datetime) → ((sooner u t).instant ≤ t.instant) × ((sooner u t).instant ≤ u.instant)
sooner-le u t = go (ltb u.instant t.instant) refl
  where
    go :
        (b : Bool)
        → ltb u.instant t.instant ≡ b
        → ((if b then u else t).instant ≤ t.instant) × ((if b then u else t).instant ≤ u.instant)
    go true e = (ground (arith, e), omega arith)
    go false e = (omega arith, ground (arith, e))

earliest-le : (t : Datetime) (us : List Datetime) → (earliest t us).instant ≤ t.instant
unfolding earliest
earliest-le t [] = omega arith
earliest-le t (u ∷ us) = omega (arith, earliest-le (sooner u t) us, (sooner-le u t).0)

earliest-least :
    (t u : Datetime) (us : List Datetime) → IsIn u us → (earliest t us).instant ≤ u.instant
unfolding earliest
earliest-least t u [] i = absurd i
earliest-least t u (v ∷ us) (inl p) =
    subst (λ (x : Datetime). (earliest t (v ∷ us)).instant ≤ x.instant) (sym p)
      (omega (arith, earliest-le (sooner v t) us, (sooner-le v t).1))
earliest-least t u (v ∷ us) (inr i) = earliest-least (sooner v t) u us i

IsIn-append_right : {A : Type 0} (x : A) (xs ys : List A) → IsIn x ys → IsIn x (xs ++ ys)
IsIn-append_right x [] ys i = i
IsIn-append_right x (y ∷ xs) ys i = inr (IsIn-append_right x xs ys i)

module _ ⦃runtime : Runtime⦄ (w : Workspace) (id : String) where
  baseline_limits-IsIn :
      (t : Task) (b : Baseline)
      → get (scope_key t.intent.scope) w.baselines ≡ some b
      → IsIn b.expires_at (baseline_limits w t)
  baseline_limits-IsIn t b found =
      subst (λ o. IsIn b.expires_at (listed (λ (c : Baseline). c.expires_at) o)) (sym found)
        (inl refl)

  decision_limits-IsIn :
      (a : String) (t : Task) (d : Decision)
      → a ≢ id
      → decision_of w t ≡ some d
      → IsIn d.expires_at (decision_limits w (a == id) t)
  decision_limits-IsIn a t d other found = elim (Bool-cases (a == id)) [
    | inl e ↦ absurd (other ((eq_iff a id).0 e))
    | inr e ↦ rw e (
        subst (λ o. IsIn d.expires_at (listed (λ (c : Decision). c.expires_at) o)) (sym found)
          (inl refl))
  ]

  -- what limits one task limits all
  limits-IsIn :
      (a : String) (t : Task) (u : Datetime) (tasks : Dict Task)
      → IsIn (a, t) tasks
      → IsIn u (baseline_limits w t) ⊎ IsIn u (decision_limits w (a == id) t)
      → IsIn u (limits w id tasks)
  unfolding limits
  limits-IsIn a t u [] i l = absurd i
  limits-IsIn a t u ((b, s) ∷ tasks) (inl p) l =
      let both =
        subst
          (λ (e : String × Task).
            IsIn u (baseline_limits w e.1) ⊎ IsIn u (decision_limits w (e.0 == id) e.1))
          p l in
      elim both [
        | inl i ↦
            IsIn-append_left u (baseline_limits w s)
              (decision_limits w (b == id) s ++ limits w id tasks) i
        | inr i ↦
            IsIn-append_right u (baseline_limits w s)
              (decision_limits w (b == id) s ++ limits w id tasks)
              (IsIn-append_left u (decision_limits w (b == id) s) (limits w id tasks) i)
      ]
  limits-IsIn a t u ((b, s) ∷ tasks) (inr j) l =
      IsIn-append_right u (baseline_limits w s) (decision_limits w (b == id) s ++ limits w id tasks)
        (IsIn-append_right u (decision_limits w (b == id) s) (limits w id tasks)
          (limits-IsIn a t u tasks j l))

-- When an expiry for a READY decision is given, it lies behind the time of the decision, and is no later
-- than the default, than the expiry of the baseline of the task or of any task it rests on, and than the
-- expiry of the decision of any task it rests on.
pub ready_expiry-bounded :
    ⦃runtime : Runtime⦄ (w : Workspace) (id : String) (at default_expiry e : Datetime)
    → ready_expiry w id at default_expiry ≡ ok e
    → (at.instant < e.instant)
      × (e.instant ≤ default_expiry.instant)
      × ((a : String) (t : Task)
          → Ancestor w.tasks a id
          → get a w.tasks ≡ some t
          → ((b : Baseline)
              → get (scope_key t.intent.scope) w.baselines ≡ some b
              → e.instant ≤ b.expires_at.instant)
            × ((d : Decision)
                → a ≢ id
                → decision_of w t ≡ some d
                → e.instant ≤ d.expires_at.instant))
unfolding ready_expiry
ready_expiry-bounded w id at default_expiry e h =
    let (tasks, closed, h1) = bind_inversion (closure w id) _ h in
    let result = earliest default_expiry (limits w id tasks) in
    let (future, h2) = raise_if_inversion (is_past result at) _ _ h1 in
    let same : result ≡ e = ok-injective h2 in
    let least : (u : Datetime) → IsIn u (limits w id tasks) → e.instant ≤ u.instant = λ u i.
      subst (λ (x : Datetime). x.instant ≤ u.instant) same
        (earliest-least default_expiry u (limits w id tasks) i) in
    (
      subst (λ (x : Datetime). at.instant < x.instant) same (ground (arith, future)),
      subst (λ (x : Datetime). x.instant ≤ default_expiry.instant) same
          (earliest-le default_expiry (limits w id tasks)),
      λ a t up known.
          let (s, k, i) = (closure-Ancestor w id tasks closed).0 a up in
          let j : IsIn (a, t) tasks =
            subst (λ (x : Task). IsIn (a, x) tasks) (some-eq (sym k ∙ known)) i in
          (
            λ b found. least b.expires_at (
                limits-IsIn w id a t b.expires_at tasks j
                  (inl (baseline_limits-IsIn w id t b found))),
            λ d other found. least d.expires_at (
                limits-IsIn w id a t d.expires_at tasks j
                  (inr (decision_limits-IsIn w id a t d other found))),
          ),
    )
