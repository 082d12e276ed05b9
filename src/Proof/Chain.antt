-- ===== src/Proof/Chain.antt =====
-- The hash chain of a subject: what `validate_subject` accepts, how it grows, and what its root
-- stands for.
use proofops_memoryguard.Base.{
  ◌+◌, String, true, not, List, [], ◌∷◌, ◌++◌, map, ◌≡◌, refl, sym, ap, ◌∙◌, ◌==◌, ◌↔◌, eqb, length,
  length-append, IsIn, arith, not_ne-eq, eq_iff, eq_refl, inl, inr,
}
use proofops_memoryguard.Errors.{ok, bind_inversion, raise_if_inversion, ok-injective}
use proofops_memoryguard.Canonical.{zero_hash}
use proofops_memoryguard.Python.Runtime.{Runtime}
use proofops_memoryguard.Models.{StoredObservation, SubjectMemory}
use proofops_memoryguard.Proof.Content.{Content, content, content-payload}
use proofops_memoryguard.Proof.{
  observation_hash_payload, compute_observation_hash, check_chain, validate_subject,
}

module _ ⦃runtime : Runtime⦄ where
  -- The observations link `previous` to `root`, each hashed over its own content.
  abbrev pub Chain : String → String → List StoredObservation → String → Type 0
  Chain ref previous [] root = previous ≡ root
  Chain ref previous (item ∷ rest) root =
      (item.subject_ref ≡ ref)
      × (item.previous_hash ≡ previous)
      × (compute_observation_hash item ≡ ok item.observation_hash)
      × Chain ref item.observation_hash rest root

  -- An independent description of a subject's memory that is intact.
  pub record IsIntact (s : SubjectMemory) : Type 0 where
    pub counted : s.version ≡ length s.observations
    pub linked : Chain s.subject_ref zero_hash s.observations s.memory_root

  check_chain-Chain :
      (ref previous root : String) (xs : List StoredObservation)
      → check_chain ref previous xs ≡ ok root
      → Chain ref previous xs root
  unfolding check_chain
  check_chain-Chain ref previous root [] h = ok-injective h
  check_chain-Chain ref previous root (x ∷ xs) h =
      let (own, h1) = raise_if_inversion (not (x.subject_ref == ref)) _ _ h in
      let (joined, h2) = raise_if_inversion (not (x.previous_hash == previous)) _ _ h1 in
      let (expected, hashed, h3) = bind_inversion (compute_observation_hash x) _ h2 in
      let (same, h4) = raise_if_inversion (not (x.observation_hash == expected)) _ _ h3 in
      let e = not_ne-eq x.observation_hash expected same in
      (
        not_ne-eq x.subject_ref ref own,
        not_ne-eq x.previous_hash previous joined,
        hashed ∙ ap ok (sym e),
        rw e (check_chain-Chain ref expected root xs h4),
      )

  Chain-check_chain :
      (ref previous root : String) (xs : List StoredObservation)
      → Chain ref previous xs root
      → check_chain ref previous xs ≡ ok root
  unfolding check_chain
  Chain-check_chain ref previous root [] c = ap ok c
  Chain-check_chain ref previous root (x ∷ xs) (own, joined, hashed, rest) =
      rw
        (
          (eq_iff x.subject_ref ref).1 own,
          (eq_iff x.previous_hash previous).1 joined,
          hashed,
          eq_refl x.observation_hash,
        )
        (Chain-check_chain ref x.observation_hash root xs rest)

  -- The check accepts exactly the subjects that are intact.
  pub validate_subject-IsIntact : (s : SubjectMemory) → (validate_subject s ≡ ok tt) ↔ IsIntact s
  unfolding validate_subject
  validate_subject-IsIntact s = (sound, complete)
    where
      sound : validate_subject s ≡ ok tt → IsIntact s
      sound h =
          let (counted, h1) =
            raise_if_inversion (not (eqb s.version (length s.observations))) _ _ h in
          let (root, checked, h2) =
            bind_inversion (check_chain s.subject_ref zero_hash s.observations) _ h1 in
          let e : s.memory_root ≡ root = ground (arith, eq_iff s.memory_root root) in
          record {
            counted = ground arith;
            linked = rw e (check_chain-Chain s.subject_ref zero_hash root s.observations checked);
          }

      complete : IsIntact s → validate_subject s ≡ ok tt
      complete v =
          let counted : eqb s.version (length s.observations) ≡ true = ground (arith, v.counted) in
          rw (
            counted,
            Chain-check_chain s.subject_ref zero_hash s.memory_root s.observations v.linked,
            eq_refl s.memory_root,
          )

  Chain-append :
      (ref previous root : String) (xs : List StoredObservation) (new : StoredObservation)
      → Chain ref previous xs root
      → new.subject_ref ≡ ref
      → new.previous_hash ≡ root
      → compute_observation_hash new ≡ ok new.observation_hash
      → Chain ref previous (xs ++ new ∷ []) new.observation_hash
  Chain-append ref previous root [] new c own joined hashed = (own, joined ∙ sym c, hashed, refl)
  Chain-append ref previous root (x ∷ xs) new (a, b, h, rest) own joined hashed =
      (a, b, h, Chain-append ref x.observation_hash root xs new rest own joined hashed)

  -- A subject that grows by an observation linked to its root stays intact.
  pub IsIntact-append :
      (s t : SubjectMemory) (new : StoredObservation)
      → IsIntact s
      → new.subject_ref ≡ s.subject_ref
      → new.previous_hash ≡ s.memory_root
      → compute_observation_hash new ≡ ok new.observation_hash
      → t.subject_ref ≡ s.subject_ref
      → t.version ≡ s.version + 1
      → t.memory_root ≡ new.observation_hash
      → t.observations ≡ s.observations ++ new ∷ []
      → IsIntact t
  IsIntact-append s t new v own joined hashed ref version root list = record {
    counted =
        version
        ∙ omega (arith, v.counted, length-append s.observations (new ∷ []))
        ∙ ap length (sym list);
    linked =
        rw (ref, root, list)
          (Chain-append s.subject_ref zero_hash s.memory_root s.observations new v.linked own joined
            hashed);
  }

  -- Two observations with one hash have one content, among those at hand.
  abbrev pub NoCollision : List StoredObservation → List StoredObservation → Type 0
  NoCollision xs ys =
      (a b : StoredObservation)
      → IsIn a xs
      → IsIn b ys
      → compute_observation_hash a ≡ compute_observation_hash b
      → observation_hash_payload a ≡ observation_hash_payload b

  Chain-determines :
      (ref ref' p q root : String) (xs ys : List StoredObservation)
      → Chain ref p xs root
      → Chain ref' q ys root
      → length xs ≡ length ys
      → NoCollision xs ys
      → (map content xs ≡ map content ys) × (p ≡ q)
  Chain-determines ref ref' p q root [] [] c d l free = (refl, c ∙ sym d)
  Chain-determines ref ref' p q root [] (y ∷ ys) c d l free = absurd (omega arith)
  Chain-determines ref ref' p q root (x ∷ xs) [] c d l free = absurd (omega arith)
  Chain-determines ref ref' p q root (x ∷ xs) (y ∷ ys) (_, a, h, c) (_, b, k, d) l free =
      let (rest, hash) =
        Chain-determines ref ref' x.observation_hash y.observation_hash root xs ys c d (omega arith)
          (λ a' b' i j. free a' b' (inr i) (inr j)) in
      let same = free x y (inl refl) (inl refl) (h ∙ ap ok hash ∙ sym k) in
      let alike = content-payload x y same hash in
      (cc (alike, rest), sym a ∙ ap (λ (c : Content). c.previous_hash) alike ∙ b)

  -- The memory root stands for the whole history: two intact memories with one root and one version
  -- hold the same observations in the same order, equal in every field (the time of observation as it is
  -- written in ISO format), unless two of their observations collide.
  pub memory_root-determines :
      (s t : SubjectMemory)
      → IsIntact s
      → IsIntact t
      → s.memory_root ≡ t.memory_root
      → s.version ≡ t.version
      → NoCollision s.observations t.observations
      → map content s.observations ≡ map content t.observations
  memory_root-determines s t v w root version free =
      (Chain-determines s.subject_ref t.subject_ref zero_hash zero_hash t.memory_root s.observations
        t.observations (rw root at v.linked) w.linked (sym v.counted ∙ version ∙ w.counted) free).0
