-- ===== src/Policy/Classify/Partition.antt =====
-- What `classify_observation` accepts, what it quarantines, and which status that gives.
use proofops_memoryguard.Base.{
  String, Bool, true, Option, none, some, [], ◌∷◌, ◌≡◌, refl, sym, ap, ◌∙◌, ◌&&◌, ◌==◌, not, Dict,
  keys, get, contains, contains-append, contains-keys, contains-sorted_set, IsDistinct, is_some,
  is_empty, if◌then◌else◌, arith, eq_iff, inl, inr, Bool-cases,
}
use proofops_memoryguard.Errors.{ok, bind_inversion, ok-injective}
use proofops_memoryguard.Python.Value.{Value}
use proofops_memoryguard.Python.Runtime.{Runtime}
use proofops_memoryguard.Models.{
  Observation, EvidenceMode, ObservationKind, baseline_approved, dispute_opened, target_revoked,
  vendor_note, kind_eq,
}
use proofops_memoryguard.Policy.Facts.{allowed_fields}
use proofops_memoryguard.Policy.Classify.{
  Classification, Sorted, unsorted, is_trusted, sort_facts, hold_raw_text, drop_untrusted,
  drop_vendor_note, settle, classification_of, classify_observation,
}
use proofops_memoryguard.Policy.Classify.Sorting.{
  accepted_value, accepted_fact, sort_facts-Sorts, or_else-none,
}

-- Only a trusted mode and a kind other than a vendor's note let facts through.
abbrev pub lets_through : Observation → Bool
lets_through o = is_trusted o.evidence_mode && not (kind_eq o.kind vendor_note)

module _ ⦃runtime : Runtime⦄ where
  settle-kept :
      (o : Observation) (s : Sorted) (k : String)
      → get k (settle o s).kept ≡ (if lets_through o then get k s.kept else none)
  unfolding settle hold_raw_text drop_untrusted drop_vendor_note get
  settle-kept o s k = ground arith

  -- the name of the free text is no field of a kind
  raw_text-refused : (kind : ObservationKind) (v : Value) → accepted_value kind "raw_text" v ≡ none
  unfolding accepted_value allowed_fields contains
  raw_text-refused baseline_approved v = refl
  raw_text-refused dispute_opened v = refl
  raw_text-refused target_revoked v = refl
  raw_text-refused vendor_note v = refl

  vendor_note-refused : (k : String) (v : Value) → accepted_value vendor_note k v ≡ none
  unfolding accepted_value allowed_fields contains
  vendor_note-refused k v = refl

  -- A field of the observation while the stages run: held exactly when it is not kept.
  record IsSettled (o : Observation) (k : String) (s : Sorted) : Type 0 where
    parted : contains k s.held ≡ not (is_some (get k s.kept))
    no_text : k == "raw_text" ≡ true → get k s.kept ≡ none
    no_note : o.kind ≡ vendor_note → get k s.kept ≡ none

  hold_raw_text-IsSettled :
      (o : Observation) (k : String) (t : Option String) (s : Sorted)
      → IsSettled o k s
      → IsSettled o k (hold_raw_text t s)
  unfolding hold_raw_text contains
  hold_raw_text-IsSettled o k none s h = h
  hold_raw_text-IsSettled o k (some t) s h = elim (Bool-cases (t == "")) [
    | inl e ↦ rw e h
    | inr e ↦ rw e (record {
      parted = ground (
        arith,
        contains-append k s.held ("raw_text" ∷ []),
        h.parted,
        h.no_text,
        eq_iff k "raw_text",
        eq_iff "raw_text" k,
      );
      no_text = h.no_text;
      no_note = h.no_note;
    })
  ]

  drop_untrusted-IsSettled :
      (o : Observation) (k : String) (m : EvidenceMode) (s : Sorted)
      → IsSettled o k s
      → IsSettled o k (drop_untrusted m s)
  unfolding drop_untrusted get
  drop_untrusted-IsSettled o k m s h =
      elim (Bool-cases (not (is_trusted m) && not (is_empty s.kept))) [
        | inl e ↦ rw e (record {
          parted =
              ground
                (arith, contains-append k s.held (keys s.kept), contains-keys k s.kept, h.parted);
          no_text = λ _. refl;
          no_note = λ _. refl;
        })
        | inr e ↦ rw e h
      ]

  drop_vendor_note-IsSettled :
      (o : Observation) (k : String) (s : Sorted)
      → IsSettled o k s
      → IsSettled o k (drop_vendor_note o.kind s)
  unfolding drop_vendor_note get
  drop_vendor_note-IsSettled o k s h = record {
    parted = ground (arith, contains-append k s.held ("raw_text" ∷ []), h.parted, h.no_note);
    no_text = ground (arith, h.no_text);
    no_note = ground (arith, h.no_note);
  }

  settle-IsSettled :
      (o : Observation) (k : String) (s : Sorted) → IsSettled o k s → IsSettled o k (settle o s)
  unfolding settle
  settle-IsSettled o k s h =
      drop_vendor_note-IsSettled o k _ (
        drop_untrusted-IsSettled o k o.evidence_mode _ (hold_raw_text-IsSettled o k o.raw_text s h))

  private_sorted :
      (o : Observation) (c : Classification)
      → classify_observation o ≡ ok c
      → (s : Sorted) × (sort_facts o.kind o.facts unsorted ≡ ok s)
        × (c ≡ classification_of o (settle o s))
  unfolding classify_observation
  private_sorted o c h =
      let (s, sorted, e) = bind_inversion (sort_facts o.kind o.facts unsorted) _ h in
      (s, sorted, sym (ok-injective e))

  all_refused :
      (kind : ObservationKind) (o : Option Value)
      → elim o [ none ↦ none | some v ↦ accepted_value kind "raw_text" v ] ≡ none
  all_refused kind none = refl
  all_refused kind (some v) = raw_text-refused kind v

  refused_name :
      (kind : ObservationKind) (d : Dict Value) (k : String)
      → k == "raw_text" ≡ true
      → accepted_fact kind d k ≡ none
  refused_name kind d k h = ground (arith, eq_iff k "raw_text", all_refused kind (get "raw_text" d))

  refused_note :
      (kind : ObservationKind) (d : Dict Value) (k : String)
      → kind ≡ vendor_note
      → accepted_fact kind d k ≡ none
  refused_note kind d k h = rw h (none_accepted (get k d))
    where
      none_accepted :
          (o : Option Value)
          → elim o [ none ↦ none | some v ↦ accepted_value vendor_note k v ] ≡ none
      none_accepted none = refl
      none_accepted (some v) = vendor_note-refused k v

  sorted_field :
      (o : Observation) (k : String) (s : Sorted)
      → IsDistinct (keys o.facts)
      → sort_facts o.kind o.facts unsorted ≡ ok s
      → (get k s.kept ≡ accepted_fact o.kind o.facts k)
        × (contains k s.held
            ≡ (contains k (keys o.facts) && not (is_some (accepted_fact o.kind o.facts k))))
  unfolding get contains
  sorted_field o k s u h =
      let all = sort_facts-Sorts o.kind o.facts k unsorted s u h in
      (all.kept ∙ or_else-none _, all.held)

  sorted-IsSettled :
      (o : Observation) (k : String) (s : Sorted)
      → IsDistinct (keys o.facts)
      → sort_facts o.kind o.facts unsorted ≡ ok s
      → contains k (keys o.facts) ≡ true
      → IsSettled o k s
  sorted-IsSettled o k s u h present =
      let (kept, held) = sorted_field o k s u h in
      record {
        parted = cc (kept, held, present);
        no_text = λ e. kept ∙ refused_name o.kind o.facts k e;
        no_note = λ e. kept ∙ refused_note o.kind o.facts k e;
      }

  -- When the classification returns, on facts with distinct keys, exactly the valid fields of a
  -- trusted observation that is no vendor's note are accepted, each under its normalized value.
  pub classify-accepts :
      (o : Observation) (c : Classification) (k : String)
      → IsDistinct (keys o.facts)
      → classify_observation o ≡ ok c
      → get k c.accepted_facts ≡ (if lets_through o then accepted_fact o.kind o.facts k else none)
  unfolding classification_of get
  classify-accepts o c k u h =
      let (s, sorted, e) = private_sorted o c h in
      rw e (
        settle-kept o s k
        ∙ ap (λ w. if lets_through o then w else none) (sorted_field o k s u sorted).0)

  -- When the classification returns, on facts with distinct keys, a field of the observation is
  -- quarantined exactly when it is not accepted.
  pub classify-partitions :
      (o : Observation) (c : Classification) (k : String)
      → IsDistinct (keys o.facts)
      → classify_observation o ≡ ok c
      → contains k (keys o.facts) ≡ true
      → contains k c.quarantined_fields ≡ not (is_some (get k c.accepted_facts))
  unfolding classification_of get
  classify-partitions o c k u h present =
      let (s, sorted, e) = private_sorted o c h in
      rw e (
        contains-sorted_set k (settle o s).held
        ∙ (settle-IsSettled o k s (sorted-IsSettled o k s u sorted present)).parted)
