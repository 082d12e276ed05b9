-- ===== src/Casework/Service/Reviewed.antt =====
-- `prepare_review`: an answer, new or repeated, comes only while the task may be reviewed.
use proofops_memoryguard.Base.{
  ℕ, ◌<◌, String, Bool, true, false, not, ◌||◌, Option, none, some, [], ◌∷◌, Dict, get, ◌==◌,
  eq_iff, ◌≡◌, refl, sym, ◌∙◌, ap, ◌⊎◌, inl, inr, Bool-cases, arith, not_ne-eq, contains,
}
use proofops_memoryguard.Errors.{
  ok, raise_if_inversion, raise_if_last, bind_inversion, ok-injective,
}
use proofops_memoryguard.Exec.{lift, exec_inversion}
use proofops_memoryguard.Python.Value.{Value, str, value_eq}
use proofops_memoryguard.Python.Runtime.{Runtime}
use proofops_memoryguard.Casework.Models.{Actor, Command, Task, Decision, Workspace, is_ready}
use proofops_memoryguard.Casework.Digest.{authorize}
use proofops_memoryguard.Casework.Basis.{item, look_up, task_basis}
use proofops_memoryguard.Casework.Ruling.{Ruling, policy_result, is_past}
use proofops_memoryguard.Casework.Ruling.Grounded.{
  IsGrounded, policy_result-IsGrounded, is_ready_inversion,
}
use proofops_memoryguard.Casework.Service.{
  Service, Fresh, visible_task, task_of, admitted, replay_of, still_reviewable, recheck_review,
}
use proofops_memoryguard.Casework.Service.Outcome.{mutate-Outcome}
use proofops_memoryguard.Casework.Service.Commands.{operators_and_reviewers}
use proofops_memoryguard.Casework.Service.Cases.{
  current_decision, is_reviewable, review_change, prepare_review,
}

visible_task-some :
    (actor : Actor) (o : Option Task) (t : Task) → visible_task actor o ≡ ok t → o ≡ some t
visible_task-some actor none t h = absurd (cc h)
visible_task-some actor (some s) t h =
    let (_, same) =
      raise_if_inversion (not (contains s.intent.scope.subject_id actor.subjects)) _ _ h in
    ap some (ok-injective same)

current_decision-some :
    (task : Task) (task_id decision_id : String) (o : Option Decision) (d : Decision)
    → current_decision task task_id decision_id o ≡ ok d
    → o ≡ some d
unfolding current_decision
current_decision-some task task_id decision_id none d h = absurd (cc h)
current_decision-some task task_id decision_id (some e) d h =
    let (_, same) =
      raise_if_inversion
        (not (e.task_id == task_id)
          || not (elim task.current_decision_id [ none ↦ false | some id ↦ id == decision_id ]))
        _ _ h in
    ap some (ok-injective same)

module _ ⦃runtime : Runtime⦄ where
  -- The policy says READY for the id on the workspace as it is, and the decision is unexpired and was
  -- made on it.
  abbrev pub MayReview : Workspace → Fresh → String → Decision → Type 0
  MayReview w fresh id d =
      IsGrounded w id fresh.policy_at false
      × (fresh.expiry_at.instant < d.expires_at.instant)
      × (task_basis w id ≡ ok d.basis_hash)

  review_change-MayReview :
      (fresh : Fresh) (actor : Actor) (task_id decision_id : String) (w : Workspace) (seq : ℕ)
      (done : Workspace × Dict Value)
      → review_change fresh actor task_id decision_id w seq ≡ ok done
      → (d : Decision) × (get decision_id w.decisions ≡ some d) × MayReview w fresh task_id d
  unfolding review_change
  review_change-MayReview fresh actor task_id decision_id w seq done h =
      let (task, seen, h1) = bind_inversion (task_of w actor task_id) _ h in
      let (d, current, h2) =
        bind_inversion (current_decision task task_id decision_id (get decision_id w.decisions)) _
          h1 in
      let (ruling, ruled, h3) =
        bind_inversion (policy_result w task_id fresh.policy_at false) _ h2 in
      let (fit, h4) =
        raise_if_inversion (not (is_reviewable fresh task d (is_ready ruling.verdict))) _ _ h3 in
      let (basis, hashed, h5) = bind_inversion (task_basis w task_id) _ h4 in
      let (same, _) = raise_if_inversion (not (d.basis_hash == basis)) _ _ h5 in
      (
        d,
        current_decision-some task task_id decision_id (get decision_id w.decisions) d current,
        (
          policy_result-IsGrounded w task_id fresh.policy_at false ruling ruled
              (is_ready_inversion ruling.verdict (ground (arith, fit))),
          ground (arith, fit),
          hashed ∙ ap ok (sym (not_ne-eq d.basis_hash basis same)),
        ),
      )

  still_reviewable-MayReview :
      (w : Workspace) (fresh : Fresh) (task : Task) (o : Option Decision) (ruling : Ruling)
      → policy_result w task.task_id fresh.policy_at false ≡ ok ruling
      → still_reviewable w fresh task o (is_ready ruling.verdict) ≡ ok true
      → (d : Decision) × (o ≡ some d) × MayReview w fresh task.task_id d
  still_reviewable-MayReview w fresh task none ruling ruled h = absurd (cc (ok-injective h))
  still_reviewable-MayReview w fresh task (some d) ruling ruled h = elim (Bool-cases stale) [
    | inl e ↦ absurd (cc (ok-injective (rw e at h)))
    | inr e ↦
        let (basis, hashed, same) = bind_inversion (task_basis w task.task_id) _ (rw e at h) in
        (
          d,
          refl,
          (
            policy_result-IsGrounded w task.task_id fresh.policy_at false ruling ruled
                (is_ready_inversion ruling.verdict (ground (arith, e))),
            ground (arith, e),
            hashed ∙ ap ok (sym ((eq_iff d.basis_hash basis).0 (ok-injective same))),
          ),
        )
  ]
    where
      stale : Bool
      stale =
          not (elim task.current_decision_id [ none ↦ false | some id ↦ id == d.decision_id ])
          || not (is_ready ruling.verdict)
          || is_past d.expires_at fresh.expiry_at

  abbrev pub review_payload : String → String → Dict Value
  review_payload task_id decision_id =
      ("task_id", str task_id) ∷ ("decision_id", str decision_id) ∷ []

  recheck_review-MayReview :
      (w : Workspace) (fresh : Fresh) (actor : Actor) (task_id decision_id : String)
      → recheck_review w fresh actor (review_payload task_id decision_id) ≡ ok tt
      → (t : Task) × (get task_id w.tasks ≡ some t)
        × ((d : Decision) × (get decision_id w.decisions ≡ some d) × MayReview w fresh t.task_id d)
  unfolding get look_up
  recheck_review-MayReview w fresh actor task_id decision_id h =
      let (task, seen, h1) = bind_inversion (visible_task actor (get task_id w.tasks)) _ h in
      let (ruling, ruled, h2) =
        bind_inversion (policy_result w task.task_id fresh.policy_at false) _ h1 in
      let (fine, still, h3) =
        bind_inversion
          (still_reviewable w fresh task (get decision_id w.decisions) (is_ready ruling.verdict)) _
          h2 in
      let yes : fine ≡ true = ground (arith, raise_if_last (not fine) _ h3) in
      (
        task,
        visible_task-some actor (get task_id w.tasks) task seen,
        still_reviewable-MayReview w fresh task (get decision_id w.decisions) ruling ruled
            (still ∙ ap ok yes),
      )

  replay_of-MayReview :
      (w : Workspace) (fresh : Fresh) (actor : Actor) (task_id decision_id fingerprint : String)
      (previous response : Dict Value)
      → replay_of w fresh actor "review.prepare"
          (review_payload task_id decision_id)
          fingerprint
          previous
        ≡ ok response
      → (t : Task) × (get task_id w.tasks ≡ some t)
        × ((d : Decision) × (get decision_id w.decisions ≡ some d) × MayReview w fresh t.task_id d)
  unfolding replay_of
  replay_of-MayReview w fresh actor task_id decision_id fingerprint previous response h =
      let (hash, _, h1) = bind_inversion (item "request_hash" previous) _ h in
      let (_, h2) = raise_if_inversion (not (value_eq hash (str fingerprint))) _ _ h1 in
      let (_, rechecked, _) =
        bind_inversion (recheck_review w fresh actor (review_payload task_id decision_id)) _ h2 in
      recheck_review-MayReview w fresh actor task_id decision_id (rechecked ∙ ap ok refl)

-- Whenever a prepared review is returned, whether it is new or repeated from an earlier call: on the
-- workspace that the store loaded under the lock in this call and that passed the checks, the decision is unexpired and its basis is
-- the hash of the memory as it is, and the policy finds the task READY, with all that stands behind
-- READY, under the id of the request or, in a repeated answer, under the id in the task's record.
pub prepare_review-MayReview :
    ⦃runtime : Runtime⦄ {M : Type 0} (service : Service M) (fresh : Fresh) (actor : Actor)
    (cmd : Command) (task_id decision_id : String) (m : M) (response : Dict Value)
    → (prepare_review service fresh actor cmd task_id decision_id m).0 ≡ ok response
    → (w : Workspace) × (stored : Option Workspace) × ((service.store.lock actor.tenant_id m).0
        ≡ ok tt)
      × ((service.store.load actor.tenant_id (service.store.lock actor.tenant_id m).1).0
          ≡ ok stored)
      × (admitted actor "review.prepare" (review_payload task_id decision_id) false stored ≡ ok w)
      × (d : Decision) × (get decision_id w.decisions ≡ some d)
      × (MayReview w fresh task_id d
          ⊎ ((t : Task) × (get task_id w.tasks ≡ some t) × MayReview w fresh t.task_id d))
unfolding prepare_review
prepare_review-MayReview service fresh actor cmd task_id decision_id m response h =
    let (_, _, h1) = exec_inversion (lift (authorize actor operators_and_reviewers none)) _ m h in
    let s =
      mutate-Outcome service fresh actor cmd "review.prepare" (review_payload task_id decision_id)
        (review_change fresh actor task_id decision_id) false none m response h1 in
    elim s.outcome [
      | inl r ↦
          let (t, known, (d, found, may)) =
            replay_of-MayReview s.w fresh actor task_id decision_id s.fingerprint r.previous
              response r.answers in
          (s.w, s.stored, s.free, s.found, s.passed, d, found, inr (t, known, may))
      | inr c ↦
          let (d, found, may) =
            review_change-MayReview fresh actor task_id decision_id s.w _ _ c.made in
          (s.w, s.stored, s.free, s.found, s.passed, d, found, inl may)
    ]
