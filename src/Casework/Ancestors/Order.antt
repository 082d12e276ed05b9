-- ===== src/Casework/Ancestors/Order.antt =====
-- What the walk returns: the ancestors of the task and nothing else, each behind all that it rests on.
use proofops_memoryguard.Base.{
  ℕ, zero, suc, String, true, false, Option, none, some, List, [], ◌∷◌, ◌++◌, ◌≡◌, refl, sym, ap,
  ◌∙◌, Dict, get, contains, contains-append, Within, sort_texts, contains-sort_texts, arith,
  Bool-cases, inl, inr, eq_iff, eq_refl, ◌⊎◌, ◌||◌, ◌==◌, subst,
}
use proofops_memoryguard.Errors.{Result, ok, bind_inversion, ok-injective}
use proofops_memoryguard.Casework.Models.{Task}
use proofops_memoryguard.Casework.Ancestors.{Walk, each, leave, descend, walk, ancestors}

-- `a` is the task `k` or a task that it rests on, at any depth.
pub data Ancestor (tasks : Dict Task) (a : String) : String → Type 0 where
  itself : Ancestor tasks a a
  above :
      {k : String} (p : String) (task : Task)
      → get k tasks ≡ some task
      → contains p task.depends_on ≡ true
      → Ancestor tasks a p
      → Ancestor tasks a k

-- Every task of the list is known, stands once, and behind all tasks that it depends on.
pub data Topological (tasks : Dict Task) : List String → Type 0 where
  none_yet : Topological tasks []
  behind :
      {ks : List String} (before : List String) (k : String) (task : Task)
      → ks ≡ before ++ k ∷ []
      → get k tasks ≡ some task
      → contains k before ≡ false
      → ((p : String) → contains p task.depends_on ≡ true → contains p before ≡ true)
      → Topological tasks before
      → Topological tasks ks

contains-snoc :
    (s k : String) (xs : List String) → contains s (xs ++ k ∷ []) ≡ (contains s xs || k == s)
unfolding contains
contains-snoc s k xs = ground (arith, contains-append s xs (k ∷ []))

module _ (tasks : Dict Task) where
  record IsGood (w : Walk) : Type 0 where
    sorted : Topological tasks w.ordered
    same : (s : String) → contains s w.visited ≡ contains s w.ordered

  -- what a walk over the roots adds, with the tasks of the path untouched
  record Grew (visiting roots : List String) (w w' : Walk) : Type 0 where
    good : IsGood w'
    kept : Within w.ordered w'.ordered
    reached : Within roots w'.ordered
    only :
        (s : String)
        → contains s w'.ordered ≡ true
        → (contains s w.ordered ≡ true)
          ⊎ ((r : String) × (contains r roots ≡ true) × Ancestor tasks s r)
    frozen :
        (s : String) → contains s visiting ≡ true → contains s w'.ordered ≡ contains s w.ordered

  abbrev Visits : List String → (String → Walk → Result Walk) → Type 0
  Visits visiting visit =
      (p : String) (w w' : Walk) → visit p w ≡ ok w' → IsGood w → Grew visiting (p ∷ []) w w'

  Grew-refl : (visiting : List String) (w : Walk) → IsGood w → Grew visiting [] w w
  unfolding contains
  Grew-refl visiting w g = record {
    good = g;
    kept = λ s i. i;
    reached = λ s i. cc i;
    only = λ s i. inl i;
    frozen = λ s i. refl;
  }

  Grew-cons :
      (visiting : List String) (p : String) (ps : List String) (w w1 w2 : Walk)
      → Grew visiting (p ∷ []) w w1
      → Grew visiting ps w1 w2
      → Grew visiting (p ∷ ps) w w2
  unfolding contains
  Grew-cons visiting p ps w w1 w2 a b = record {
    good = b.good;
    kept = λ s i. b.kept s (a.kept s i);
    reached = λ s i. elim (Bool-cases (p == s)) [
      | inl e ↦ b.kept s (a.reached s (rw e))
      | inr e ↦ b.reached s (ground (arith, i, e))
    ];
    only = λ s i. after s (b.only s i);
    frozen = λ s i. b.frozen s i ∙ a.frozen s i;
  }
    where
      first :
          (s : String)
          → (contains s w.ordered ≡ true)
            ⊎ ((r : String) × (contains r (p ∷ []) ≡ true) × Ancestor tasks s r)
          → (contains s w.ordered ≡ true)
            ⊎ ((r : String) × (contains r (p ∷ ps) ≡ true) × Ancestor tasks s r)
      first s (inl i) = inl i
      first s (inr (r, i, up)) = inr (r, ground (arith, i), up)

      after :
          (s : String)
          → (contains s w1.ordered ≡ true)
            ⊎ ((r : String) × (contains r ps ≡ true) × Ancestor tasks s r)
          → (contains s w.ordered ≡ true)
            ⊎ ((r : String) × (contains r (p ∷ ps) ≡ true) × Ancestor tasks s r)
      after s (inl i) = first s (a.only s i)
      after s (inr (r, i, up)) = inr (r, ground (arith, i), up)

  each-Grew :
      (visiting : List String) (visit : String → Walk → Result Walk)
      → Visits visiting visit
      → (ps : List String) (w w' : Walk) → each visit ps w ≡ ok w'
      → IsGood w
      → Grew visiting ps w w'
  unfolding each
  each-Grew visiting visit v [] w w' h g =
      subst (Grew visiting [] w) (ok-injective h) (Grew-refl visiting w g)
  each-Grew visiting visit v (p ∷ ps) w w' h g =
      let (w1, e, k) = bind_inversion (visit p w) (each visit ps) h in
      let a = v p w w1 e g in
      Grew-cons visiting p ps w w1 w' a (each-Grew visiting visit v ps w1 w' k a.good)

  leave-Grew :
      (visiting : List String) (key : String) (task : Task) (w w1 : Walk)
      → contains key visiting ≡ false
      → contains key w.visited ≡ false
      → get key tasks ≡ some task
      → IsGood w
      → Grew (key ∷ visiting) (sort_texts task.depends_on) w w1
      → Grew visiting (key ∷ []) w (leave key w1)
  unfolding contains
  leave-Grew visiting key task w w1 off new found g grew = record {
    good = record {
      sorted =
          behind w1.ordered key task refl found absent
            (λ p i. grew.reached p (contains-sort_texts p task.depends_on ∙ i)) grew.good.sorted;
      same = λ s. ground (arith, contains-snoc s key w1.ordered, grew.good.same s);
    };
    kept = λ s i. ground (arith, contains-snoc s key w1.ordered, grew.kept s i);
    reached = λ s i. ground (arith, contains-snoc s key w1.ordered, i);
    only = λ s i. elim (Bool-cases (key == s)) [
      | inl e ↦ inr (key, rw (eq_refl key), rw ((eq_iff key s).0 e) itself)
      | inr e ↦ higher s (grew.only s (ground (arith, contains-snoc s key w1.ordered, i, e)))
    ];
    frozen = λ s i. ground (
      arith,
      contains-snoc s key w1.ordered,
      grew.frozen s (ground (arith, i)),
      eq_iff key s,
      off,
      i,
    );
  }
    where
      absent : contains key w1.ordered ≡ false
      absent = grew.frozen key (rw (eq_refl key)) ∙ sym (g.same key) ∙ new

      higher :
          (s : String)
          → (contains s w.ordered ≡ true)
            ⊎ ((r : String) × (contains r (sort_texts task.depends_on) ≡ true) × Ancestor tasks s r)
          → (contains s w.ordered ≡ true)
            ⊎ ((r : String) × (contains r (key ∷ []) ≡ true) × Ancestor tasks s r)
      higher s (inl i) = inl i
      higher s (inr (r, i, up)) = inr (
        key,
        rw (eq_refl key),
        above r task found (sym (contains-sort_texts r task.depends_on) ∙ i) up,
      )

  seen-Grew :
      (visiting : List String) (key : String) (w : Walk)
      → contains key w.visited ≡ true
      → IsGood w
      → Grew visiting (key ∷ []) w w
  unfolding contains
  seen-Grew visiting key w seen g = record {
    good = g;
    kept = λ s i. i;
    reached = λ s i. ground (arith, g.same s, seen, i, eq_iff key s);
    only = λ s i. inl i;
    frozen = λ s i. refl;
  }

  descend-Grew :
      (visiting : List String) (visit : String → Walk → Result Walk) (key : String)
      (found : Option Task) (w w' : Walk)
      → Visits (key ∷ visiting) visit
      → get key tasks ≡ found
      → contains key visiting ≡ false
      → contains key w.visited ≡ false
      → descend visit key found w ≡ ok w'
      → IsGood w
      → Grew visiting (key ∷ []) w w'
  unfolding descend
  descend-Grew visiting visit key none w w' v e off new h g = cc
  descend-Grew visiting visit key (some task) w w' v e off new h g =
      let (w1, walked, k) = bind_inversion (each visit (sort_texts task.depends_on) w) _ h in
      subst (Grew visiting (key ∷ []) w) (ok-injective k) (
        leave-Grew visiting key task w w1 off new e g
          (each-Grew (key ∷ visiting) visit v (sort_texts task.depends_on) w w1 walked g))

  walk-Grew : (n : ℕ) (visiting : List String) → Visits visiting (walk n tasks visiting)
  unfolding walk
  walk-Grew zero visiting p w w' h g = cc
  walk-Grew (suc n) visiting p w w' h g = elim (Bool-cases (contains p visiting)) [
    | inl e ↦ absurd (ground (arith, rw e at h))
    | inr e ↦ elim (Bool-cases (contains p w.visited)) [
      | inl seen ↦
          subst (Grew visiting (p ∷ []) w) (ok-injective (rw (e, seen) at h))
            (seen-Grew visiting p w seen g)
      | inr new ↦
          descend-Grew visiting (walk n tasks (p ∷ visiting)) p (get p tasks) w w'
            (walk-Grew n (p ∷ visiting)) refl e new (rw (e, new) at h) g
    ]
  ]

  Topological-closed :
      (ks : List String) (k p : String) (task : Task)
      → Topological tasks ks
      → contains k ks ≡ true
      → get k tasks ≡ some task
      → contains p task.depends_on ≡ true
      → contains p ks ≡ true
  unfolding contains
  Topological-closed ks k p task none_yet i found up = cc
  Topological-closed ks k p task (behind before j jtask e jfound new parents rest) i found up =
      elim (Bool-cases (contains k before)) [
        | inl earlier ↦
            let below = Topological-closed before k p task rest earlier found up in
            rw e (ground (arith, contains-snoc p j before, below))
        | inr last ↦
            let here : j ≡ k =
              ground (arith, rw e at i, contains-snoc k j before, last, eq_iff j k) in
            let same : some jtask ≡ some task =
              sym jfound ∙ ap (λ (x : String). get x tasks) here ∙ found in
            let mine : contains p jtask.depends_on ≡ true =
              ap (λ (t : Option Task). elim t [ none ↦ false | some u ↦ contains p u.depends_on ])
                same
              ∙ up in
            rw e (ground (arith, contains-snoc p j before, parents p mine))
      ]

  Ancestor-within :
      (ks : List String) (a k : String)
      → Topological tasks ks
      → Ancestor tasks a k
      → contains k ks ≡ true
      → contains a ks ≡ true
  Ancestor-within ks a k t itself i = i
  Ancestor-within ks a k t (above p task found up rest) i =
      Ancestor-within ks a p t rest (Topological-closed ks k p task t i found up)

-- When the walk over the ancestors of a task returns, it returns exactly the task and all tasks that
-- it rests on at any depth, each one known, once, and behind all that it depends on.
pub ancestors-Topological :
    (tasks : Dict Task) (id : String) (ks : List String)
    → ancestors tasks id ≡ ok ks
    → Topological tasks ks
      × ((a : String) → contains a ks ≡ true → Ancestor tasks a id)
      × ((a : String) → Ancestor tasks a id → contains a ks ≡ true)
unfolding ancestors contains
ancestors-Topological tasks id ks h =
    let (w, walked, e) = bind_inversion (walk _ tasks [] id _) _ h in
    let grew =
      walk-Grew tasks _ [] id _ w walked (record { sorted = none_yet; same = λ s. refl }) in
    subst Described (ok-injective e) (
      grew.good.sorted,
      λ a i. one a (grew.only a i),
      λ a up.
          Ancestor-within tasks w.ordered a id grew.good.sorted up
            (grew.reached id (rw (eq_refl id))),
    )
  where
    Described : List String → Type 0
    Described xs =
        Topological tasks xs
        × ((a : String) → contains a xs ≡ true → Ancestor tasks a id)
        × ((a : String) → Ancestor tasks a id → contains a xs ≡ true)

    one :
        (a : String)
        → (contains a [] ≡ true)
          ⊎ ((r : String) × (contains r (id ∷ []) ≡ true) × Ancestor tasks a r)
        → Ancestor tasks a id
    one a (inl i) = cc
    one a (inr (r, i, up)) = subst (Ancestor tasks a) (sym ((eq_iff id r).0 (ground (arith, i)))) up
