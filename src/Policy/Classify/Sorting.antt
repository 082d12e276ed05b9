-- ===== src/Policy/Classify/Sorting.antt =====
-- What the loop over the facts keeps and holds, key by key.
use proofops_memoryguard.Base.{
  String, false, Option, none, some, [], ◌∷◌, ◌≡◌, refl, ◌||◌, ◌==◌, Dict, keys, get, get-put,
  contains, contains-append, get-absent, IsDistinct, if◌then◌else◌, arith, eq_iff, is_some, not,
  ◌&&◌, inl, inr, Bool-cases,
}
use proofops_memoryguard.Errors.{Result, ok, err, ◌>>=◌, bind_inversion}
use proofops_memoryguard.Python.Value.{Value}
use proofops_memoryguard.Python.Runtime.{Runtime}
use proofops_memoryguard.Models.{ObservationKind}
use proofops_memoryguard.Policy.Facts.{FactCheck, valid, invalid, allowed_fields, validate_fact}
use proofops_memoryguard.Policy.Classify.{Sorted, hold, sort_checked, sort_fact, sort_facts}

abbrev pub value_of_check : Result FactCheck → Option Value
value_of_check (ok (valid w)) = some w
value_of_check (ok (invalid r)) = none
value_of_check (err e) = none

module _ ⦃runtime : Runtime⦄ where
  -- The value under which one field is accepted, if it is.
  unfoldable pub accepted_value : ObservationKind → String → Value → Option Value
  accepted_value kind k v =
      if contains k (allowed_fields kind) then value_of_check (validate_fact kind k v) else none

  -- The same for the field of a dict of facts.
  abbrev pub accepted_fact : ObservationKind → Dict Value → String → Option Value
  accepted_fact kind d k = elim (get k d) [ none ↦ none | some v ↦ accepted_value kind k v ]

  abbrev pub or_else : Option Value → Option Value → Option Value
  or_else (some w) d = some w
  or_else none d = d

  pub or_else-none : (w : Option Value) → or_else w none ≡ w
  or_else-none none = refl
  or_else-none (some w) = refl

  -- After one field: what is kept under `j`, and whether `j` is held.
  pub record Step (k j : String) (w : Option Value) (s s' : Sorted) : Type 0 where
    pub kept : get j s'.kept ≡ (if k == j then or_else w (get j s.kept) else get j s.kept)
    pub held : contains j s'.held ≡ (contains j s.held || (k == j && not (is_some w)))

  sort_checked-Step :
      (k j : String) (c : Result FactCheck) (s s' : Sorted)
      → (c >>= λ check. ok (sort_checked k check s)) ≡ ok s'
      → Step k j (value_of_check c) s s'
  unfolding sort_checked hold contains
  sort_checked-Step k j (ok (valid w)) s s' h = ground (arith, get-put k j w s.kept)
  sort_checked-Step k j (ok (invalid r)) s s' h = ground (arith, contains-append j s.held (k ∷ []))
  sort_checked-Step k j (err e) s s' h = cc

  sort_fact-Step :
      (kind : ObservationKind) (k j : String) (v : Value) (s s' : Sorted)
      → sort_fact kind k v s ≡ ok s'
      → Step k j (accepted_value kind k v) s s'
  unfolding sort_fact accepted_value
  sort_fact-Step kind k j v s s' h = elim (Bool-cases (contains k (allowed_fields kind))) [
    | inl e ↦ rw e (sort_checked-Step k j (validate_fact kind k v) s s' (rw e at h))
    | inr e ↦ rw e (
        sort_checked-Step k j (ok (invalid "unknown_fact_field")) s s'
          (unfold sort_checked in (rw e at h)))
  ]

  -- The same for all the fields of a dict.
  pub record Sorts (kind : ObservationKind) (d : Dict Value) (j : String) (s s' : Sorted)
      : Type 0 where
    pub kept : get j s'.kept ≡ or_else (accepted_fact kind d j) (get j s.kept)
    pub held :
        contains j s'.held
        ≡ (contains j s.held || (contains j (keys d) && not (is_some (accepted_fact kind d j))))

  Sorts-cons :
      (kind : ObservationKind) (k j : String) (v : Value) (d : Dict Value) (s s1 s' : Sorted)
      → contains k (keys d) ≡ false
      → Step k j (accepted_value kind k v) s s1
      → Sorts kind d j s1 s'
      → Sorts kind ((k, v) ∷ d) j s s'
  unfolding get contains
  Sorts-cons kind k j v d s s1 s' fresh a b = record {
    kept = ground (arith, eq_iff k j, get-absent k d);
    held = ground (arith, eq_iff k j, get-absent k d);
  }

  pub sort_facts-Sorts :
      (kind : ObservationKind) (d : Dict Value) (j : String) (s s' : Sorted)
      → IsDistinct (keys d)
      → sort_facts kind d s ≡ ok s'
      → Sorts kind d j s s'
  unfolding sort_facts get contains
  sort_facts-Sorts kind [] j s s' u h = record { kept = ground arith; held = ground arith }
  sort_facts-Sorts kind ((k, v) ∷ d) j s s' u h =
      let (s1, first, rest) = bind_inversion (sort_fact kind k v s) (sort_facts kind d) h in
      Sorts-cons kind k j v d s s1 s' u.0 (sort_fact-Step kind k j v s s1 first)
        (sort_facts-Sorts kind d j s1 s' u.1 rest)
