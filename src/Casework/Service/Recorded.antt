-- ===== src/Casework/Service/Recorded.antt =====
-- What a change of the workspace leaves on record: the revision, the event, the response and the root.
use proofops_memoryguard.Base.{
  suc, String, Bool, false, not, ◌&&◌, Option, some, [], ◌∷◌, ◌++◌, Dict, get, get-put, put,
  last_one, ◌==◌, eq_refl, ◌≡◌, refl, sym, ◌∙◌, subst, eqb, leb,
}
use proofops_memoryguard.Errors.{ok, raise_if_inversion, bind_inversion, ok-injective}
use proofops_memoryguard.Python.Value.{Value, bool, str}
use proofops_memoryguard.Python.Runtime.{Runtime}
use proofops_memoryguard.Casework.Models.{Actor, Command, Workspace}
use proofops_memoryguard.Casework.Values.{nat, plain, state_payload}
use proofops_memoryguard.Casework.Digest.{digest, seal}
use proofops_memoryguard.Casework.Service.{
  Fresh, Change, merge, precondition, record_change, carry_out, last_hash, response_of, kept_state,
  event_body,
}

get-put_same : {V : Type 0} (k : String) (v : V) (d : Dict V) → get k (put k v d) ≡ some v
get-put_same k v d = rw (get-put k k v d, eq_refl k) refl

get-put_other :
    {V : Type 0} (k j : String) (v : V) (d : Dict V)
    → (k == j) ≡ false
    → get j (put k v d) ≡ get j d
get-put_other k j v d h = rw (get-put k j v d, h) refl

module _ ⦃runtime : Runtime⦄ where
  -- what a saved change looks like
  pub record IsRecorded (actor : Actor) (name : String) (w changed w' : Workspace)
      (result : Dict Value) (key fingerprint : String) (response : Dict Value) : Type 0 where
    pub event : Dict Value
    pub event_hash : String
    -- the saved state is the changed one, in every field but these four
    pub whole : w' ≡ record changed {
      revision = suc w.revision;
      audit = changed.audit ++ event ∷ [];
      idempotency =
          put key
            (("request_hash", str fingerprint) ∷ ("response", plain response) ∷ [])
            changed.idempotency;
      state_root = w'.state_root;
    }
    pub answer :
        response
        ≡ merge result (
            ("revision", nat (suc w.revision))
            ∷ ("event_hash", str event_hash)
            ∷ ("executable", bool false)
            ∷ ("replayed", bool false)
            ∷ [])
    pub logged :
        (get "seq" event ≡ some (nat (suc w.revision)))
        × (get "actor_id" event ≡ some (str actor.actor_id))
        × (get "command" event ≡ some (str name))
        × (get "request_hash" event ≡ some (str fingerprint))
        × ((previous : Value) × (last_hash (last_one changed.audit) ≡ ok previous)
            × (get "previous_hash" event ≡ some previous))
        × (get "event_hash" event ≡ get "event_hash" response)
    -- the hash in the event is the one of its body
    pub body : Dict Value
    pub bodied : event ≡ body ++ ("event_hash", str event_hash) ∷ []
    pub chained : digest "event" (plain body) ≡ ok event_hash
    pub sealed : digest "workspace" (state_payload w') ≡ ok w'.state_root
    pub remembered :
        get key w'.idempotency
        ≡ some (("request_hash", str fingerprint) ∷ ("response", plain response) ∷ [])
    pub inert : get "executable" response ≡ some (bool false)
    pub first : get "replayed" response ≡ some (bool false)

  seal-Sealed :
      (P : Workspace → Type 0) (w w' : Workspace)
      → seal w ≡ ok w'
      → ((root : String)
          → digest "workspace" (state_payload w) ≡ ok root
          → P (record w { state_root = root }))
      → P w'
  unfolding seal
  seal-Sealed P w w' h made =
      let (root, hashed, same) = bind_inversion (digest "workspace" (state_payload w)) _ h in
      subst P (ok-injective same) (made root hashed)

  kept_state-IsRecorded :
      (fresh : Fresh) (actor : Actor) (name fingerprint key : String) (w changed : Workspace)
      (result : Dict Value) (result_hash : String) (previous : Value) (event_hash root : String)
      → last_hash (last_one changed.audit) ≡ ok previous
      → digest "workspace" (
          state_payload (
            kept_state fresh actor name fingerprint key
              (suc w.revision)
              changed
              result
              result_hash
              previous
              event_hash))
        ≡ ok root
      → digest "event"
          (plain (event_body fresh actor name (suc w.revision) fingerprint result_hash previous))
        ≡ ok event_hash
      → IsRecorded actor name w changed
          (record (kept_state fresh actor name fingerprint key
            (suc w.revision)
            changed
            result
            result_hash
            previous
            event_hash) { state_root = root })
          result
          key
          fingerprint
          (response_of result (suc w.revision) event_hash)
  unfolding get merge state_payload
  kept_state-IsRecorded fresh actor name fingerprint key w changed result result_hash previous
        event_hash root linked hashed chained =
      record {
        event = _;
        event_hash = event_hash;
        whole = refl;
        answer = refl;
        logged = (
          refl,
          refl,
          refl,
          refl,
          (previous, linked, refl),
          sym (
              get-put_other "replayed" "event_hash" (bool false) _ refl
              ∙ get-put_other "executable" "event_hash" (bool false) _ refl
              ∙ get-put_same "event_hash" (str event_hash) _),
        );
        body = _;
        bodied = refl;
        chained = chained;
        sealed = hashed;
        remembered = get-put_same key _ changed.idempotency;
        inert =
            get-put_other "replayed" "executable" (bool false) _ refl
            ∙ get-put_same "executable" (bool false) _;
        first = get-put_same "replayed" (bool false) _;
      }

  pub record_change-IsRecorded :
      (fresh : Fresh) (actor : Actor) (name fingerprint key : String) (w changed w' : Workspace)
      (result response : Dict Value)
      → record_change fresh actor name fingerprint key (suc w.revision) changed result
        ≡ ok (w', response)
      → IsRecorded actor name w changed w' result key fingerprint response
  unfolding record_change
  record_change-IsRecorded fresh actor name fingerprint key w changed w' result response h =
      let (result_hash, _, h1) = bind_inversion (digest "command-result" (plain result)) _ h in
      let (previous, linked, h2) = bind_inversion (last_hash (last_one changed.audit)) _ h1 in
      let (event_hash, chained, h3) = bind_inversion (digest "event" _) _ h2 in
      let (sealed, made, end) = bind_inversion (seal _) _ h3 in
      subst
        (λ (x : Workspace × Dict Value).
          IsRecorded actor name w changed x.0 result key fingerprint x.1)
        (ok-injective end)
        (seal-Sealed
          (λ x.
            IsRecorded actor name w changed x result key fingerprint
              (response_of result (suc w.revision) event_hash))
          _ sealed made
          (λ root hashed.
            kept_state-IsRecorded fresh actor name fingerprint key w changed result result_hash
              previous event_hash root linked hashed chained))

  pub carry_out-IsRecorded :
      (fresh : Fresh) (actor : Actor) (cmd : Command) (name : String) (change : Change)
      (boot : Bool) (relevant : Option (String × String)) (fingerprint key : String)
      (w w' : Workspace) (response : Dict Value)
      → carry_out fresh actor cmd name change boot relevant fingerprint key w ≡ ok (w', response)
      → (precondition w cmd relevant ≡ ok tt)
        × (changed : Workspace) × (result : Dict Value) × (change w (suc w.revision)
            ≡ ok (changed, result))
        × IsRecorded actor name w changed w' result key fingerprint response
  unfolding carry_out
  carry_out-IsRecorded fresh actor cmd name change boot relevant fingerprint key w w' response h =
      let (_, met, h1) = bind_inversion (precondition w cmd relevant) _ h in
      let (_, h2) = raise_if_inversion (boot && not (eqb w.revision 0)) _ _ h1 in
      let (_, h3) = raise_if_inversion (leb 5000 w.revision) _ _ h2 in
      let (changed, made, h4) = bind_inversion (change w (suc w.revision)) _ h3 in
      (
        met,
        changed.0,
        changed.1,
        made,
        record_change-IsRecorded fresh actor name fingerprint key w changed.0 w' changed.1 response
            h4,
      )
