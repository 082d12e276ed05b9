-- ===== src/Policy/Decide/Verdicts.antt =====
-- What each verdict of the policy rests on, and which observations can change it.
use proofops_memoryguard.Base.{
  Bool, true, false, List, [], ◌∷◌, ◌++◌, ◌≡◌, refl, sym, ap, map, ◌∙◌, ◌&&◌, ◌||◌, not, filter_by,
  filter_by-append, any_by, last_one-IsIn, IsIn, IsIn-filter_by, is_empty, if◌then◌else◌, arith,
  inl, inr, Bool-cases,
}
use proofops_memoryguard.Errors.{ok, ◌>>=◌, bind_inversion, ok-injective}
use proofops_memoryguard.Python.Number.{Float, Datetime, float_le}
use proofops_memoryguard.Python.Runtime.{Runtime}
use proofops_memoryguard.Models.{
  StoredObservation, PaymentIntent, ready, deny, target_revoked, kind_eq,
}
use proofops_memoryguard.Policy.Decide.{
  PolicyDecision, active_for_mode, observation_ids, names_target, revokes, disputes, approves,
  covers, limit_of, has_expired, valid_baselines, revoked_decision, disputed_decision,
  baseline_decision, decide_active, active_items, decide,
}

module _ ⦃runtime : Runtime⦄ where
  abbrev is_active : PaymentIntent → StoredObservation → Bool
  is_active intent item = active_for_mode item intent.evidence_mode

  -- An observation that is not active, wherever it stands in memory, changes no decision.
  pub decide-ignores_inactive :
      (intent : PaymentIntent) (xs ys : List StoredObservation) (item : StoredObservation)
      (now : Datetime)
      → active_for_mode item intent.evidence_mode ≡ false
      → decide intent (xs ++ item ∷ ys) now ≡ decide intent (xs ++ ys) now
  unfolding decide active_items
  decide-ignores_inactive intent xs ys item now h = ap (decide_active intent now) (
      filter_by-append (is_active intent) xs (item ∷ ys)
      ∙ (unfold filter_by in rw h (sym (filter_by-append (is_active intent) xs ys))))

  any_active :
      (test : StoredObservation → Bool) (intent : PaymentIntent) (xs : List StoredObservation)
      → any_by (λ item. is_active intent item && test item) xs
        ≡ not (is_empty (filter_by test (active_items intent xs)))
  unfolding any_by filter_by active_items
  any_active test intent [] = refl
  any_active test intent (x ∷ xs) = ground (arith, any_active test intent xs)

  filter_by-filter_by :
      (p q : StoredObservation → Bool) (xs : List StoredObservation)
      → filter_by q (filter_by p xs) ≡ filter_by (λ x. p x && q x) xs
  unfolding filter_by
  filter_by-filter_by p q [] = refl
  filter_by-filter_by p q (x ∷ xs) = ground (arith, filter_by-filter_by p q xs)

  any_by-IsIn :
      (test : StoredObservation → Bool) (item : StoredObservation) (xs : List StoredObservation)
      → IsIn item xs
      → test item ≡ true
      → any_by test xs ≡ true
  unfolding any_by
  any_by-IsIn test item [] i h = absurd i
  any_by-IsIn test item (x ∷ xs) (inl e) h = rw (sym e, h) refl
  any_by-IsIn test item (x ∷ xs) (inr i) h = ground (arith, any_by-IsIn test item xs i h)

  -- When any stored, active observation is a revocation that names the target, the decision is DENY for the one reason that
  -- the target is revoked, whatever else is stored, and its causes are the ids of all active revocations
  -- of the target, in the order of the memory.
  pub decide-revoked :
      (intent : PaymentIntent) (xs : List StoredObservation) (now : Datetime)
      (item : StoredObservation)
      → IsIn item xs
      → active_for_mode item intent.evidence_mode ≡ true
      → item.kind ≡ target_revoked
      → names_target intent item ≡ true
      → (d : PolicyDecision) × (decide intent xs now ≡ ok d)
        × (d.verdict ≡ deny)
        × (d.reason_codes ≡ "target_revoked_in_persistent_memory" ∷ [])
        × (d.causal_memory_ids
            ≡ map
                (λ x. x.observation_id)
                (filter_by
                  (λ x.
                    active_for_mode x intent.evidence_mode
                    && (kind_eq x.kind target_revoked && names_target intent x))
                  xs))
  unfolding decide decide_active revoked_decision observation_ids active_items revokes
  decide-revoked intent xs now item stored active kind named =
      let found : any_by (λ x. is_active intent x && revokes intent x) xs ≡ true =
        any_by-IsIn (λ x. is_active intent x && revokes intent x) item xs stored
          (rw (active, named, kind) refl) in
      (
        revoked_decision (filter_by (revokes intent) (active_items intent xs)),
        rw (sym (any_active (revokes intent) intent xs) ∙ found) refl,
        refl,
        refl,
        ap (map (λ (x : StoredObservation). x.observation_id))
            (filter_by-filter_by (is_active intent) (revokes intent) xs),
      )

  any_by-append :
      (test : StoredObservation → Bool) (xs ys : List StoredObservation)
      → any_by test xs ≡ true
      → any_by test (xs ++ ys) ≡ true
  unfolding any_by
  any_by-append test [] ys h = cc
  any_by-append test (x ∷ xs) ys h = ground (arith, any_by-append test xs ys)

  -- What makes an active observation block an intent.
  abbrev pub blocks : PaymentIntent → StoredObservation → Bool
  blocks intent item =
      active_for_mode item intent.evidence_mode && (revokes intent item || disputes intent item)

  any_blocks :
      (intent : PaymentIntent) (xs : List StoredObservation)
      → any_by (blocks intent) xs ≡ (
          not (is_empty (filter_by (revokes intent) (active_items intent xs)))
          || not (is_empty (filter_by (disputes intent) (active_items intent xs))))
  unfolding any_by filter_by active_items
  any_blocks intent [] = refl
  any_blocks intent (x ∷ xs) = ground (arith, any_blocks intent xs)

  -- The three ways through `decide`.
  data Cases (intent : PaymentIntent) (xs : List StoredObservation) (now : Datetime) : Type 0 where
    revoked :
        is_empty (filter_by (revokes intent) (active_items intent xs)) ≡ false
        → decide intent xs now
          ≡ ok (revoked_decision (filter_by (revokes intent) (active_items intent xs)))
        → Cases intent xs now
    disputed :
        is_empty (filter_by (revokes intent) (active_items intent xs)) ≡ true
        → is_empty (filter_by (disputes intent) (active_items intent xs)) ≡ false
        → decide intent xs now
          ≡ ok (disputed_decision (filter_by (disputes intent) (active_items intent xs)))
        → Cases intent xs now
    unblocked :
        is_empty (filter_by (revokes intent) (active_items intent xs)) ≡ true
        → is_empty (filter_by (disputes intent) (active_items intent xs)) ≡ true
        → decide intent xs now ≡ (
            valid_baselines intent now (filter_by (approves intent) (active_items intent xs))
            >>= λ valid. ok (baseline_decision valid))
        → Cases intent xs now

  decide-Cases :
      (intent : PaymentIntent) (xs : List StoredObservation) (now : Datetime) → Cases intent xs now
  unfolding decide decide_active
  decide-Cases intent xs now =
      elim (Bool-cases (is_empty (filter_by (revokes intent) (active_items intent xs)))) [
        | inr e ↦ revoked e (rw e)
        | inl e ↦
            elim (Bool-cases (is_empty (filter_by (disputes intent) (active_items intent xs)))) [
              | inr f ↦ disputed e f (rw (e, f))
              | inl f ↦ unblocked e f (rw (e, f))
            ]
      ]

  -- An active revocation or open dispute of the target gives DENY, and no observation that is
  -- appended later lifts it.
  pub decide-blocked :
      (intent : PaymentIntent) (xs later : List StoredObservation) (now : Datetime)
      → any_by (blocks intent) xs ≡ true
      → (d : PolicyDecision) × (decide intent (xs ++ later) now ≡ ok d) × (d.verdict ≡ deny)
  unfolding revoked_decision disputed_decision
  decide-blocked intent xs later now h =
      let here = any_by-append (blocks intent) xs later h in
      let b = sym (any_blocks intent (xs ++ later)) ∙ here in
      elim (decide-Cases intent (xs ++ later) now) [
        | revoked some_revoke e ↦ (_, e, refl)
        | disputed none_revoke some_dispute e ↦ (_, e, refl)
        | unblocked none_revoke none_dispute e ↦ absurd (ground arith)
      ]

  valid_baselines-covered :
      (intent : PaymentIntent) (now : Datetime) (items valid : List StoredObservation)
      (y : StoredObservation)
      → valid_baselines intent now items ≡ ok valid
      → IsIn y valid
      → IsIn y items × (covers intent now y ≡ ok true)
  unfolding valid_baselines
  valid_baselines-covered intent now [] valid y h i = absurd (rw (sym (ok-injective h)) at i)
  valid_baselines-covered intent now (x ∷ xs) valid y h i =
      let (keep, e, h') = bind_inversion (covers intent now x) _ h in
      let (more, f, g) = bind_inversion (valid_baselines intent now xs) _ h' in
      split keep e more (valid_baselines-covered intent now xs more y f)
        (rw (sym (ok-injective g)) at i)
    where
      split :
          (keep : Bool)
          → covers intent now x ≡ ok keep
          → (more : List StoredObservation)
          → (IsIn y more → IsIn y xs × (covers intent now y ≡ ok true))
          → IsIn y (if keep then x ∷ more else more)
          → IsIn y (x ∷ xs) × (covers intent now y ≡ ok true)
      split true e more rest (inl p) = (inl p, rw p e)
      split true e more rest (inr j) = let (k, c) = rest j in (inr k, c)
      split false e more rest j = let (k, c) = rest j in (inr k, c)

  covers-within :
      (intent : PaymentIntent) (now : Datetime) (item : StoredObservation)
      → covers intent now item ≡ ok true
      → (limit : Float) × (limit_of item ≡ ok limit)
        × (float_le intent.amount_usd limit ≡ true)
        × (has_expired now item ≡ ok false)
  unfolding covers
  covers-within intent now item h =
      let (limit, limited, h1) = bind_inversion (limit_of item) _ h in
      let (expired, dated, h2) = bind_inversion (has_expired now item) _ h1 in
      let fits = ok-injective h2 in
      (limit, limited, ground (arith, fits), dated ∙ ap ok (ground (arith, fits)))

  -- What a READY verdict rests on.
  pub record IsGrounded (intent : PaymentIntent) (now : Datetime) (xs : List StoredObservation)
      (d : PolicyDecision) : Type 0 where
    pub unblocked : any_by (blocks intent) xs ≡ false
    pub baseline : StoredObservation
    pub stored : IsIn baseline xs
    pub active : active_for_mode baseline intent.evidence_mode ≡ true
    pub approved : approves intent baseline ≡ true
    pub covered : covers intent now baseline ≡ ok true
    pub limit : Float
    pub limited : limit_of baseline ≡ ok limit
    pub within : float_le intent.amount_usd limit ≡ true
    pub unexpired : has_expired now baseline ≡ ok false
    pub causal : d.causal_memory_ids ≡ baseline.observation_id ∷ []

  -- READY is given only when nothing active blocks the intent and a stored, active baseline of its
  -- target, chain and method covers its amount and has not expired; that baseline is the one cause.
  pub decide-ready :
      (intent : PaymentIntent) (xs : List StoredObservation) (now : Datetime) (d : PolicyDecision)
      → decide intent xs now ≡ ok d
      → d.verdict ≡ ready
      → IsGrounded intent now xs d
  unfolding revoked_decision disputed_decision baseline_decision active_items observation_ids
  decide-ready intent xs now d h r = elim (decide-Cases intent xs now) [
    | revoked some_revoke e ↦ absurd (ground arith)
    | disputed none_revoke some_dispute e ↦ absurd (ground arith)
    | unblocked none_revoke none_dispute e ↦
        let free : any_by (blocks intent) xs ≡ false =
          any_blocks intent xs ∙ (rw (none_revoke, none_dispute)) in
        let (valid, f, g) = bind_inversion (valid_baselines intent now _) _ (sym e ∙ h) in
        grounded free valid f (ok-injective g)
  ]
    where
      grounded :
          any_by (blocks intent) xs ≡ false
          → (valid : List StoredObservation)
          → valid_baselines intent now (filter_by (approves intent) (active_items intent xs))
            ≡ ok valid
          → baseline_decision valid ≡ d
          → IsGrounded intent now xs d
      grounded free [] f g = absurd (ground arith)
      grounded free (v ∷ vs) f g =
          let (y, last, i) = last_one-IsIn v vs in
          let (among, covered) = valid_baselines-covered intent now _ (v ∷ vs) y f i in
          let (act, approved) = IsIn-filter_by (approves intent) y _ among in
          let (stored, active) = IsIn-filter_by (is_active intent) y xs act in
          let (limit, limited, within, unexpired) = covers-within intent now y covered in
          record {
            unblocked = free;
            baseline = y;
            stored = stored;
            active = active;
            approved = approved;
            covered = covered;
            limit = limit;
            limited = limited;
            within = within;
            unexpired = unexpired;
            causal =
                ap (λ (p : PolicyDecision). p.causal_memory_ids) (sym g) ∙ ap observation_ids last;
          }
