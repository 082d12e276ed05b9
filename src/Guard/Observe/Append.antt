-- ===== src/Guard/Observe/Append.antt =====
-- How a call of `observe` ends: refused with the store as it was, answered from a stored
-- observation, or with one observation appended to an intact chain.
use proofops_memoryguard.Base.{
  String, Bool, true, false, Option, none, some, List, [], ◌∷◌, ◌≡◌, refl, sym, ap, ◌∙◌, eqb,
  length, if◌then◌else◌, arith,
}
use proofops_memoryguard.Errors.{Error, Result, ok, err, memory_conflict}
use proofops_memoryguard.Exec.{lift_ends, ◌>>=◌}
use proofops_memoryguard.Canonical.{zero_hash, domain_hash, subject_ref}
use proofops_memoryguard.Python.Number.{Datetime}
use proofops_memoryguard.Python.Value.{str}
use proofops_memoryguard.Python.Runtime.{Runtime}
use proofops_memoryguard.Models.{Observation, StoredObservation, SubjectMemory, ObservationReceipt}
use proofops_memoryguard.Policy.Classify.{Classification, classify_observation}
use proofops_memoryguard.Proof.{
  observation_hash_payload, compute_observation_hash, validate_subject,
}
use proofops_memoryguard.Proof.Chain.{Chain, IsIntact, IsIntact-append, validate_subject-IsIntact}
use proofops_memoryguard.Ports.{MemoryPort, IsAvailable, version_of}
use proofops_memoryguard.Guard.Sound.{
  IsSound, or_empty-IsIntact, or_empty-subject_ref, or_empty-version,
}
use proofops_memoryguard.Guard.Checks.{check_observation}
use proofops_memoryguard.Guard.Observe.{
  Fresh, find_duplicate, or_empty, receipt_of, raw_text_hash, same_request, stored_observation,
  hashed, updated_subject, append_observation, answer_repeat, replay_or_append, observe_subject,
  observe,
}

module _ ⦃runtime : Runtime⦄ where
  -- an intact memory without observations has the zero root
  previous_hash-memory_root :
      (s : SubjectMemory)
      → IsIntact s
      → (if eqb s.version 0 then zero_hash else s.memory_root) ≡ s.memory_root
  previous_hash-memory_root s v = go s.observations v.counted v.linked
    where
      go :
          (xs : List StoredObservation)
          → s.version ≡ length xs
          → Chain s.subject_ref zero_hash xs s.memory_root
          → (if eqb s.version 0 then zero_hash else s.memory_root) ≡ s.memory_root
      go [] n c = ground (arith, c)
      go (x ∷ xs) n c = ground arith

  -- The appended memory is intact, so the check before the commit passes.
  updated-IsIntact :
      (ref : String) (s : SubjectMemory) (o : Observation) (c : Classification) (source : String)
      (raw : Option String) (fresh : Fresh) (hash : String)
      → IsIntact s
      → s.subject_ref ≡ ref
      → compute_observation_hash (stored_observation ref s o c source raw fresh) ≡ ok hash
      → IsIntact (
          updated_subject ref s
            (hashed (stored_observation ref s o c source raw fresh) hash)
            fresh.updated_at)
  unfolding stored_observation updated_subject compute_observation_hash observation_hash_payload
  updated-IsIntact ref s o c source raw fresh hash v own h =
      IsIntact-append s _ (hashed (stored_observation ref s o c source raw fresh) hash) v (sym own)
        (previous_hash-memory_root s v) h (sym own) refl refl refl

  -- A stored observation takes these fields from the request, and these from its classification.
  pub record Stores (o : Observation) (c : Classification) (item : StoredObservation) : Type 0 where
    pub session : item.session_id ≡ o.session_id
    pub kind : item.kind ≡ o.kind
    pub source : domain_hash "source" (str o.source_id) ≡ ok item.source_id
    pub mode : item.evidence_mode ≡ o.evidence_mode
    pub status : item.status ≡ c.status
    pub facts : item.accepted_facts ≡ c.accepted_facts
    pub quarantined : item.quarantined_fields ≡ c.quarantined_fields
    pub reasons : item.reason_codes ≡ c.reason_codes
    pub raw : raw_text_hash o.raw_text ≡ ok item.raw_text_hash
    pub key : item.idempotency_key ≡ o.idempotency_key
    pub time : item.observed_at ≡ o.observed_at

  stored_observation-Stores :
      (ref : String) (s : SubjectMemory) (o : Observation) (c : Classification) (source : String)
      (raw : Option String) (fresh : Fresh) (hash : String)
      → domain_hash "source" (str o.source_id) ≡ ok source
      → raw_text_hash o.raw_text ≡ ok raw
      → Stores o c (hashed (stored_observation ref s o c source raw fresh) hash)
  unfolding stored_observation
  stored_observation-Stores ref s o c source raw fresh hash sourced rawed = record {
    session = refl;
    kind = refl;
    source = sourced;
    mode = refl;
    status = refl;
    facts = refl;
    quarantined = refl;
    reasons = refl;
    raw = rawed;
    key = refl;
    time = refl;
  }

  module _ {M : Type 0} {port : MemoryPort M} (a : IsAvailable port) where
    -- How a call ends, from the memory `m`.
    pub data Outcome (m : M) (o : Observation) (fresh : Fresh) (out : Result ObservationReceipt × M)
        : Type 0 where
      refused : (e : Error) → out ≡ (err e, m) → Outcome m o fresh out
      repeated :
          (ref : String) (s : SubjectMemory) (item : StoredObservation)
          → subject_ref o.subject_id ≡ ok ref
          → s ≡ or_empty ref fresh.opened_at (a.subject m ref)
          → find_duplicate o.idempotency_key s.observations ≡ some item
          → out ≡ (ok (receipt_of item s), m)
          → Outcome m o fresh out
      appended :
          (ref : String) (s : SubjectMemory) (c : Classification) (item : StoredObservation)
          → subject_ref o.subject_id ≡ ok ref
          → s ≡ or_empty ref fresh.opened_at (a.subject m ref)
          → classify_observation o ≡ ok c
          → find_duplicate o.idempotency_key s.observations ≡ none
          → Stores o c item
          → IsIntact (updated_subject ref s item fresh.updated_at)
          → out ≡ (
            ok (receipt_of item (updated_subject ref s item fresh.updated_at)),
            (port.commit_observation s.version
                (updated_subject ref s item fresh.updated_at)
                item
                m).1,
          )
          → Outcome m o fresh out

    version_fits :
        (m : M) (ref : String) (s : SubjectMemory) (item : StoredObservation) (now : Datetime)
        → version_of (a.subject m ref) ≡ s.version
        → eqb (version_of (a.subject m (updated_subject ref s item now).subject_ref)) s.version
          ≡ true
    unfolding updated_subject
    version_fits m ref s item now h = ground (arith, h)

    -- With an intact memory of its own, a new observation whose parts can be hashed is appended.
    append_observation_lem :
        (m : M) (ref : String) (s : SubjectMemory) (item : StoredObservation) (hash : String)
        (fresh : Fresh)
        → version_of (a.subject m ref) ≡ s.version
        → IsIntact (updated_subject ref s (hashed item hash) fresh.updated_at)
        → append_observation port ref s item hash fresh m ≡ (
          ok (
              receipt_of
                (hashed item hash)
                (updated_subject ref s (hashed item hash) fresh.updated_at)),
          (port.commit_observation s.version
              (updated_subject ref s (hashed item hash) fresh.updated_at)
              (hashed item hash)
              m).1,
        )
    unfolding append_observation
    append_observation_lem m ref s item hash fresh same v =
        let stored = hashed item hash in
        let updated = updated_subject ref s stored fresh.updated_at in
        rw (
          (validate_subject-IsIntact updated).1 v,
          a.commit_accepted s.version updated stored m
              (version_fits m ref s stored fresh.updated_at same),
        )

    append-Outcome :
        (m : M) (ref : String) (s : SubjectMemory) (o : Observation) (c : Classification)
        (source : String) (raw : Option String) (fresh : Fresh)
        → subject_ref o.subject_id ≡ ok ref
        → s ≡ or_empty ref fresh.opened_at (a.subject m ref)
        → s.subject_ref ≡ ref
        → IsIntact s
        → classify_observation o ≡ ok c
        → find_duplicate o.idempotency_key s.observations ≡ none
        → domain_hash "source" (str o.source_id) ≡ ok source
        → raw_text_hash o.raw_text ≡ ok raw
        → (hash : String)
        → compute_observation_hash (stored_observation ref s o c source raw fresh) ≡ ok hash
        → Outcome m o fresh (
            append_observation port ref s
              (stored_observation ref s o c source raw fresh)
              hash
              fresh
              m)
    append-Outcome m ref s o c source raw fresh named opened own v classified unique sourced rawed
          hash h =
        let intact = updated-IsIntact ref s o c source raw fresh hash v own h in
        appended ref s c (hashed (stored_observation ref s o c source raw fresh) hash) named opened
          classified unique
          (stored_observation-Stores ref s o c source raw fresh hash sourced rawed) intact
          (append_observation_lem m ref s (stored_observation ref s o c source raw fresh) hash fresh
            (or_empty-version ref fresh.opened_at (a.subject m ref)
              ∙ ap (λ (t : SubjectMemory). t.version) (sym opened))
            intact)

    replay_or_append-Outcome :
        (m : M) (ref : String) (s : SubjectMemory) (o : Observation) (c : Classification)
        (fresh : Fresh)
        → subject_ref o.subject_id ≡ ok ref
        → s ≡ or_empty ref fresh.opened_at (a.subject m ref)
        → s.subject_ref ≡ ref
        → IsIntact s
        → classify_observation o ≡ ok c
        → (found : Option StoredObservation)
        → find_duplicate o.idempotency_key s.observations ≡ found
        → Outcome m o fresh (replay_or_append port ref s o c fresh found m)
    unfolding replay_or_append
    replay_or_append-Outcome m ref s o c fresh named opened own v classified none unique =
        lift_ends (Outcome m o fresh) (domain_hash "source" (str o.source_id)) _ m
          (λ e _. refused e refl)
          λ source sourced.
            lift_ends (Outcome m o fresh) (raw_text_hash o.raw_text) _ m (λ e _. refused e refl)
              λ raw rawed.
                lift_ends (Outcome m o fresh)
                  (compute_observation_hash (stored_observation ref s o c source raw fresh)) _ m
                  (λ e _. refused e refl)
                  λ hash h.
                    append-Outcome m ref s o c source raw fresh named opened own v classified unique
                      sourced rawed hash h
    replay_or_append-Outcome m ref s o c fresh named opened own v classified (some item) found =
        lift_ends (Outcome m o fresh) (domain_hash "source" (str o.source_id)) _ m
          (λ e _. refused e refl)
          λ source _.
            lift_ends (Outcome m o fresh) (raw_text_hash o.raw_text) _ m (λ e _. refused e refl)
              λ raw _. answer (same_request item o c source raw)
      where
        answer : (same : Bool) → Outcome m o fresh (answer_repeat port same (receipt_of item s) m)
        answer true = repeated ref s item named opened found (unfold answer_repeat in refl)
        answer false =
            refused (memory_conflict "idempotency key was already used for a different observation")
              (unfold answer_repeat in refl)

    -- From a sound memory, a call of `observe` raises and changes nothing, answers a repeated key from
    -- the stored observation and changes nothing, or commits one observation at the end of the intact
    -- chain of its subject: its session, kind, mode, key and time are the request's, its source and raw
    -- text the hashes of the request's, and its status, accepted facts, quarantined fields and reasons
    -- those that the classification gives.
    pub observe-Outcome :
        (m : M) (o : Observation) (fresh : Fresh)
        → IsSound a m
        → Outcome m o fresh (observe port o fresh m)
    unfolding observe observe_subject
    observe-Outcome m o fresh sound =
        lift_ends (Outcome m o fresh) (check_observation o) _ m (λ e _. refused e refl)
          λ _ _.
            lift_ends (Outcome m o fresh) (subject_ref o.subject_id) _ m (λ e _. refused e refl)
              λ ref named. loaded ref named
      where
        loaded :
            (ref : String)
            → subject_ref o.subject_id ≡ ok ref
            → Outcome m o fresh (
                (port.load_subject ref >>= λ found.
                observe_subject port ref (or_empty ref fresh.opened_at found) o fresh)
                  m)
        loaded ref named =
            let s = or_empty ref fresh.opened_at (a.subject m ref) in
            rw (a.load_subject_lem ref m) (
              lift_ends (Outcome m o fresh) (validate_subject s) _ m (λ e _. refused e refl)
                λ _ _.
                  lift_ends (Outcome m o fresh) (classify_observation o) _ m (λ e _. refused e refl)
                    λ c classified.
                      replay_or_append-Outcome m ref s o c fresh named refl
                        (or_empty-subject_ref ref fresh.opened_at (a.subject m ref)
                          (sound.subject_key ref))
                        (or_empty-IsIntact ref fresh.opened_at (a.subject m ref)
                          (sound.subject_intact ref))
                        classified (find_duplicate o.idempotency_key s.observations) refl)
