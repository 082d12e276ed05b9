-- ===== src/Casework/Affected/Chosen.antt =====
-- The entries of a dictionary that a comprehension keeps.
use proofops_memoryguard.Base.{
  ◌+◌, ◌≤◌, ◌<◌, String, Bool, true, false, ◌&&◌, ◌||◌, Option, none, some, List, [], ◌∷◌, ◌≡◌,
  refl, sym, ◌∙◌, ap, Dict, get, get-absent, keys, contains, filter_by, length, ◌==◌, eq_iff,
  eq_refl, IsDistinct, IsIn, inl, inr, Bool-cases, arith, if◌then◌else◌, subst,
}

-- the value at a key passes a test
abbrev pub holds : {V : Type 0} → (String × V → Bool) → String → Option V → Bool
holds test k none = false
holds test k (some v) = test (k, v)

contains-kept :
    {V : Type 0} (b : Bool) (k j : String) (v : V) (d : Dict V)
    → contains k (keys (if b then (j, v) ∷ d else d)) ≡ ((b && j == k) || contains k (keys d))
unfolding contains
contains-kept true k j v d = refl
contains-kept false k j v d = refl

pub contains-filter_by :
    {V : Type 0} (test : String × V → Bool) (k : String) (d : Dict V)
    → IsDistinct (keys d)
    → contains k (keys (filter_by test d)) ≡ holds test k (get k d)
unfolding contains filter_by get
contains-filter_by test k [] u = refl
contains-filter_by test k ((j, v) ∷ d) u =
    contains-kept (test (j, v)) k j v (filter_by test d) ∙ (elim (Bool-cases (j == k)) [
      | inl e ↦
          let same : j ≡ k = (eq_iff j k).0 e in
          let gone : get k d ≡ none =
            get-absent k d (subst (λ x. contains x (keys d) ≡ false) same u.0) in
          let rest : contains k (keys (filter_by test d)) ≡ false =
            contains-filter_by test k d u.1 ∙ ap (holds test k) gone in
          let named : test (j, v) ≡ test (k, v) = ap (λ x. test (x, v)) same in
          rw (e, rest, named) (ground arith)
      | inr e ↦ rw (e, contains-filter_by test k d u.1) (ground arith)
    ])

-- Two disjoint choices from a third one.
pub length-disjoint :
    {A : Type 0} (small p keep : A → Bool) (xs : List A)
    → ((x : A) → IsIn x xs → p x ≡ true → small x ≡ false)
    → ((x : A) → small x ≡ true → keep x ≡ true)
    → ((x : A) → p x ≡ true → keep x ≡ true)
    → length (filter_by small xs) + length (filter_by p xs) ≤ length (filter_by keep xs)
unfolding filter_by
length-disjoint small p keep [] apart s k = omega arith
length-disjoint small p keep (x ∷ xs) apart s k = ground (
  arith,
  length-disjoint small p keep xs (λ y i. apart y (inr i)) s k,
  apart x (inl refl),
  s x,
  k x,
)

pub IsIn-keys :
    {V : Type 0} (test : String × V → Bool) (e : String × V) (d : Dict V)
    → IsIn e d
    → test e ≡ true
    → contains e.0 (keys (filter_by test d)) ≡ true
unfolding filter_by contains
IsIn-keys test e [] i h = absurd i
IsIn-keys test e (f ∷ d) (inl p) h =
    contains-kept (test f) e.0 f.0 f.1 (filter_by test d) ∙ rw (sym p, h, eq_refl e.0) refl
IsIn-keys test e (f ∷ d) (inr i) h =
    contains-kept (test f) e.0 f.0 f.1 (filter_by test d)
    ∙ rw (IsIn-keys test e d i h) (ground arith)

pub keys_none : {V : Type 0} (d : Dict V) → length d ≤ 0 → keys d ≡ []
keys_none [] h = refl
keys_none ((k, v) ∷ d) h = absurd (omega (arith, h))

pub length-keys-pos :
    {V : Type 0} (d : Dict V) (k : String) (ks : List String) → keys d ≡ k ∷ ks → 0 < length d
length-keys-pos [] k ks h = absurd (cc h)
length-keys-pos ((j, v) ∷ d) k ks h = omega arith
