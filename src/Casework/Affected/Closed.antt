-- ===== src/Casework/Affected/Closed.antt =====
-- The propagation stops because no task is left to add.
use proofops_memoryguard.Base.{
  ℕ, zero, suc, ◌≤◌, ◌<◌, String, Bool, true, false, not, ◌&&◌, List, [], ◌∷◌, ◌++◌, ◌≡◌, refl, sym,
  ◌∙◌, ap, Dict, contains, contains-append, filter_by, length, IsIn, inl, inr, ◌⊎◌, Bool-cases,
  arith, &&_parts,
}
use proofops_memoryguard.Casework.Models.{Task}
use proofops_memoryguard.Casework.Affected.{is_fresh, rests_on, added, spread}
use proofops_memoryguard.Casework.Affected.Chosen.{
  length-disjoint, IsIn-keys, keys_none, length-keys-pos,
}

module _ (tasks : Dict Task) where
  abbrev outside : List String → Dict Task
  outside result = filter_by (λ e. not (contains e.0 result)) tasks

  -- A round that adds something leaves fewer tasks outside.
  outside-added :
      (result : List String) (k : String) (ks : List String)
      → added tasks result ≡ k ∷ ks
      → length (outside (result ++ k ∷ ks)) < length (outside result)
  unfolding added
  outside-added result k ks h = omega (
    arith,
    length-keys-pos (filter_by fresh tasks) k ks h,
    length-disjoint (λ e. not (contains e.0 (result ++ k ∷ ks))) fresh
        (λ e. not (contains e.0 result)) tasks apart fewer
        (λ e i. (&&_parts (not (contains e.0 result)) (rests_on result e.1) i).0),
  )
    where
      fresh : String × Task → Bool
      fresh = is_fresh result

      apart :
          (e : String × Task)
          → IsIn e tasks
          → fresh e ≡ true
          → not (contains e.0 (result ++ k ∷ ks)) ≡ false
      apart e i f = ground (
        arith,
        contains-append e.0 result (k ∷ ks),
        sym (ap (contains e.0) h) ∙ IsIn-keys fresh e tasks i f,
      )

      fewer :
          (e : String × Task)
          → not (contains e.0 (result ++ k ∷ ks)) ≡ true
          → not (contains e.0 result) ≡ true
      fewer e i = ground (arith, i, contains-append e.0 result (k ∷ ks))

  -- the two ways a round goes
  spread_step :
      (n : ℕ) (result : List String)
      → ((added tasks result ≡ []) × (spread (suc n) tasks result ≡ result))
        ⊎ ((k : String) × (ks : List String) × (added tasks result ≡ k ∷ ks)
            × (spread (suc n) tasks result ≡ spread n tasks (result ++ k ∷ ks)))
  unfolding spread
  spread_step n result = go (added tasks result)
    where
      go :
          (new : List String)
          → ((new ≡ [])
              × ((elim new [ [] ↦ result | k ∷ ks ↦ spread n tasks (result ++ k ∷ ks) ]) ≡ result))
            ⊎ ((k : String) × (ks : List String) × (new ≡ k ∷ ks)
                × ((elim new [ [] ↦ result | j ∷ js ↦ spread n tasks (result ++ j ∷ js) ])
                    ≡ spread n tasks (result ++ k ∷ ks)))
      go [] = inl (refl, refl)
      go (k ∷ ks) = inr (k, ks, refl, refl)

  added-outside : (result : List String) → length (outside result) ≤ 0 → added tasks result ≡ []
  unfolding added
  added-outside result h = keys_none _ (
      omega (
        arith,
        h,
        length-disjoint (λ e. false) (λ e. not (contains e.0 result) && rests_on result e.1)
            (λ e. not (contains e.0 result)) tasks (λ e i f. refl) (λ e f. cc f)
            (λ e i. (&&_parts (not (contains e.0 result)) (rests_on result e.1) i).0),
      ))

  -- The loop stops because nothing is left to add.
  pub spread-closed :
      (n : ℕ) (result : List String)
      → length (outside result) ≤ n
      → added tasks (spread n tasks result) ≡ []
  unfolding spread
  spread-closed zero result h = added-outside result h
  spread-closed (suc n) result h = elim (spread_step n result) [
    | inl (e, s) ↦ rw s e
    | inr (k, ks, e, s) ↦
        rw s (spread-closed n (result ++ k ∷ ks) (omega (arith, h, outside-added result k ks e)))
  ]

  pub spread-keeps :
      (n : ℕ) (result : List String) (s : String)
      → contains s result ≡ true
      → contains s (spread n tasks result) ≡ true
  unfolding spread
  spread-keeps zero result s i = i
  spread-keeps (suc n) result s i = elim (spread_step n result) [
    | inl (e, p) ↦ rw p i
    | inr (k, ks, e, p) ↦
        rw p (
          spread-keeps n (result ++ k ∷ ks) s
            (ground (arith, contains-append s result (k ∷ ks), i)))
  ]

  -- A property that each round hands on holds of all that is found.
  pub spread-only :
      (P : String → Type 0)
      → ((result : List String) (s : String)
          → ((r : String) → contains r result ≡ true → P r)
          → contains s (added tasks result) ≡ true
          → P s)
      → (n : ℕ) (result : List String) → ((r : String) → contains r result ≡ true → P r)
      → (s : String) → contains s (spread n tasks result) ≡ true
      → P s
  unfolding spread
  spread-only P step zero result h s i = h s i
  spread-only P step (suc n) result h s i = elim (spread_step n result) [
    | inl (e, p) ↦ h s (rw p at i)
    | inr (k, ks, e, p) ↦ spread-only P step n (result ++ k ∷ ks) (grown k ks e) s (rw p at i)
  ]
    where
      grown :
          (k : String) (ks : List String)
          → added tasks result ≡ k ∷ ks
          → (r : String) → contains r (result ++ k ∷ ks) ≡ true
          → P r
      grown k ks e r j = elim (Bool-cases (contains r result)) [
        | inl old ↦ h r old
        | inr new ↦
            step result r h (rw e (ground (arith, contains-append r result (k ∷ ks), j, new)))
      ]
