-- ===== src/Casework/Service/Outcome.antt =====
-- How a command ends when it returns: an old response and nothing saved, or one change saved.
use proofops_memoryguard.Base.{
  suc, String, Bool, Option, none, some, [], ◌∷◌, Dict, get, ◌≡◌, ◌≢◌, refl, subst, ◌⊎◌, inl, inr,
}
use proofops_memoryguard.Errors.{Error, Result, ok, err, casework, ok-injective}
use proofops_memoryguard.Exec
use proofops_memoryguard.Exec.{Exec, lift, and_then, and_then_ends}
use proofops_memoryguard.Python.Value.{Value, strings}
use proofops_memoryguard.Python.Runtime.{Runtime}
use proofops_memoryguard.Casework.Models.{Actor, Command, Workspace}
use proofops_memoryguard.Casework.Digest.{digest}
use proofops_memoryguard.Casework.Service.{
  Service, Fresh, Change, as_casework, replay_of, precondition, request_value, carry_out, admitted,
  previous_of, serve, transact, mutate,
}
use proofops_memoryguard.Casework.Service.Recorded.{IsRecorded, carry_out-IsRecorded}

as_casework-ok : {A : Type 0} (r : Result A) {a : A} → as_casework r ≡ ok a → r ≡ ok a
as_casework-ok (ok a) h = h
as_casework-ok (err e) h = absurd (failed e h)
  where
    failed : {A : Type 0} {a : A} (e : Error) → as_casework (err e) ≢ ok a
    failed (casework code status) h = cc h
    failed e h = cc h

module _ ⦃runtime : Runtime⦄ {M : Type 0} (service : Service M) (fresh : Fresh) (actor : Actor)
    (cmd : Command) (name : String) (payload : Dict Value) (change : Change) (boot : Bool)
    (relevant : Option (String × String)) (m : M) (response : Dict Value) where
  abbrev pub locked : M
  locked = (service.store.lock actor.tenant_id m).1

  abbrev pub loaded : M
  loaded = (service.store.load actor.tenant_id locked).1

  -- the answer of an earlier call of the same request, and nothing saved
  pub record IsReplay (w : Workspace) (key fingerprint : String) (end : M) : Type 0 where
    pub previous : Dict Value
    pub found : get key w.idempotency ≡ some previous
    pub answers : replay_of w fresh actor name payload fingerprint previous ≡ ok response
    pub untouched : end ≡ loaded

  -- the change carried out once on the state, and the outcome saved
  pub record IsChange (w : Workspace) (key fingerprint : String) (end : M) : Type 0 where
    pub met : precondition w cmd relevant ≡ ok tt
    pub changed : Workspace
    pub result : Dict Value
    pub made : change w (suc w.revision) ≡ ok (changed, result)
    pub saved : Workspace
    pub recorded : IsRecorded actor name w changed saved result key fingerprint response
    pub kept : (service.store.save actor.tenant_id saved loaded).0 ≡ ok tt
    pub ends : end ≡ (service.store.save actor.tenant_id saved loaded).1

  previous_of-get : (o : Option (Dict Value)) (d : Dict Value) → previous_of o ≡ some d → o ≡ some d
  unfolding previous_of
  previous_of-get none d h = cc
  previous_of-get (some []) d h = absurd (cc h)
  previous_of-get (some (e ∷ es)) d h = h

  save_ends :
      (response' : Dict Value) (r : Result (Unit {0})) (n : M)
      → (and_then {A = Unit {0}} (λ _. lift (ok response')) r n).0 ≡ ok response
      → (r ≡ ok tt)
        × (response' ≡ response)
        × ((and_then {A = Unit {0}} (λ _. lift (ok response')) r n).1 ≡ n)
  save_ends response' (err e) n h = absurd (cc h)
  save_ends response' (ok x) n h = (refl, ok-injective h, refl)

  done :
      (w : Workspace) (key fingerprint : String) (r : Result (Workspace × Dict Value))
      → carry_out fresh actor cmd name change boot relevant fingerprint key w ≡ r
      → (and_then
          (λ d. Exec.◌>>◌ (service.store.save actor.tenant_id d.0) (lift {A = Dict Value} (ok d.1)))
          r
          loaded).0
        ≡ ok response
      → IsChange w key fingerprint
          (and_then
            (λ d.
              Exec.◌>>◌ (service.store.save actor.tenant_id d.0) (lift {A = Dict Value} (ok d.1)))
            r
            loaded).1
  done w key fingerprint (err e) carried h = absurd (cc h)
  done w key fingerprint (ok (w', response')) carried h =
      let (met, changed, result, made, recorded) =
        carry_out-IsRecorded fresh actor cmd name change boot relevant fingerprint key w w'
          response' carried in
      let (kept, same, end) =
        save_ends response' (service.store.save actor.tenant_id w' loaded).0
          (service.store.save actor.tenant_id w' loaded).1 h in
      record {
        met = met;
        changed = changed;
        result = result;
        made = made;
        saved = w';
        recorded = subst (IsRecorded actor name w changed w' result key fingerprint) same recorded;
        kept = kept;
        ends = end;
      }

  serve-Outcome :
      (w : Workspace) (key fingerprint : String) (previous : Option (Dict Value))
      → previous_of (get key w.idempotency) ≡ previous
      → (serve service fresh actor cmd name payload change boot relevant fingerprint key w previous
          loaded).0
        ≡ ok response
      → IsReplay w key fingerprint
          (serve service fresh actor cmd name payload change boot relevant fingerprint key w
            previous loaded).1
        ⊎ IsChange w key fingerprint
            (serve service fresh actor cmd name payload change boot relevant fingerprint key w
              previous loaded).1
  unfolding serve
  serve-Outcome w key fingerprint (some previous) found h = inl (record {
    previous = previous;
    found = previous_of-get (get key w.idempotency) previous found;
    answers = h;
    untouched = refl;
  })
  serve-Outcome w key fingerprint none found h = inr (
      done w key fingerprint (carry_out fresh actor cmd name change boot relevant fingerprint key w)
        refl h)

  -- Every return of `mutate` goes through the load of a workspace that passed all checks.
  pub record IsServed (end : M) : Type 0 where
    pub fingerprint : String
    pub key : String
    pub stored : Option Workspace
    pub w : Workspace
    pub request : digest "command" (request_value actor cmd name payload) ≡ ok fingerprint
    pub identity :
        digest "idempotency-key" (strings (actor.actor_id ∷ cmd.idempotency_key ∷ [])) ≡ ok key
    pub free : (service.store.lock actor.tenant_id m).0 ≡ ok tt
    pub found : (service.store.load actor.tenant_id locked).0 ≡ ok stored
    pub passed : admitted actor name payload boot stored ≡ ok w
    pub outcome : IsReplay w key fingerprint end ⊎ IsChange w key fingerprint end

-- When a command returns a response, the lock was taken, its workspace was loaded under it and passed every check on
-- integrity, tenant and permissions, and one of two things happened. Either an earlier call had left a
-- response under the same key, the answer is made from it, and nothing was saved. Or the precondition on
-- the revision (or on the memory) held, the change was carried out once, and what was saved is the changed
-- state in every field but four: the next revision, one more audit event, with the actor, the command and its own
-- hash and linked to the event before it, the response under the key, and the root of all this. The response is
-- the result of the change with the revision, the hash of the event, and that it is not executable.
pub mutate-Outcome :
    ⦃runtime : Runtime⦄ {M : Type 0} (service : Service M) (fresh : Fresh) (actor : Actor)
    (cmd : Command) (name : String) (payload : Dict Value) (change : Change) (boot : Bool)
    (relevant : Option (String × String)) (m : M) (response : Dict Value)
    → (mutate service fresh actor cmd name payload change boot relevant m).0 ≡ ok response
    → IsServed service fresh actor cmd name payload change boot relevant m response
        (mutate service fresh actor cmd name payload change boot relevant m).1
unfolding mutate transact
mutate-Outcome {M = M} service fresh actor cmd name payload change boot relevant m response h =
    and_then_ends Q _ (digest "command" (request_value actor cmd name payload)) m h
      λ fingerprint request h1.
        and_then_ends Q _
          (digest "idempotency-key" (strings (actor.actor_id ∷ cmd.idempotency_key ∷ []))) m h1
          λ key identity h2.
            and_then_ends Q _ (service.store.lock actor.tenant_id m).0 _ (as_casework-ok _ h2)
              λ _ free h3.
                and_then_ends Q _ (service.store.load actor.tenant_id before).0 _ h3
                  λ stored found h4.
                    and_then_ends Q _ (admitted actor name payload boot stored) _ h4 λ w passed h5.
                      record {
                        fingerprint = fingerprint;
                        key = key;
                        stored = stored;
                        w = w;
                        request = request;
                        identity = identity;
                        free = free;
                        found = found;
                        passed = passed;
                        outcome =
                            serve-Outcome service fresh actor cmd name payload change boot relevant
                              m response w key fingerprint (previous_of (get key w.idempotency))
                              refl h5;
                      }
  where
    Q : M → Type 0
    Q = IsServed service fresh actor cmd name payload change boot relevant m response

    before : M
    before = locked service fresh actor cmd name payload change boot relevant m response
