-- ===== src/Casework/Service/Resolve/Independent.antt =====
-- Who may resolve a risk case, on what, and what becomes of the tasks.
use proofops_memoryguard.Base.{
  ℕ, String, Bool, true, false, not, ◌||◌, Option, none, some, List, [], ◌∷◌, Dict, get, get-put,
  put, contains, eqb, ◌==◌, eq_iff, eq_refl, not_ne-eq, ◌≡◌, ◌≢◌, refl, sym, ◌∙◌, ap, subst, ◌⊎◌,
  inl, inr, Bool-cases, if_both, if◌then◌else◌, arith,
}
use proofops_memoryguard.Errors.{ok, raise_if_inversion, bind_inversion, ok-injective}
use proofops_memoryguard.Python.Value.{Value}
use proofops_memoryguard.Python.Runtime.{Runtime}
use proofops_memoryguard.Casework.Models.{
  Actor, RiskCase, Task, TaskStatus, ready, deny, needs_human, Report, Handoff, Workspace, is_open,
  is_deny,
}
use proofops_memoryguard.Casework.Affected.{affected_tasks}
use proofops_memoryguard.Casework.Basis.{item, investigation_basis}
use proofops_memoryguard.Casework.Ruling.{policy_result}
use proofops_memoryguard.Casework.Service.{Fresh, case_of, visible_case}
use proofops_memoryguard.Casework.Service.Resolve.{
  is_source_report, has_obligations, found_report, resolved, is_independent, independent_handoff,
  valid_report, tainted, reconsider_tasks, link_resolution, resolve_change,
}

-- a task that is not READY
abbrev pub IsStopped : Option Task → Type 0
IsStopped o = (t : Task) × (o ≡ some t) × (t.status ≢ ready)

get-put_twice :
    (key k : String) (s t : Task) (d : Dict Task)
    → get k (put key t (put key s d)) ≡ (if key == k then some t else get k d)
get-put_twice key k s t d = get-put key k t (put key s d) ∙ go (key == k) (get-put key k s d)
  where
    go :
        (b : Bool)
        → get k (put key s d) ≡ (if b then some s else get k d)
        → (if b then some t else get k (put key s d)) ≡ (if b then some t else get k d)
    go true e = refl
    go false e = e

module _ ⦃runtime : Runtime⦄ (fresh : Fresh) (token : String) where
  -- what the loop over the affected tasks does
  record Reconsidered (ks : List String) (w w' : Workspace) : Type 0 where
    cases : w'.cases ≡ w.cases
    others : (k : String) → contains k ks ≡ false → get k w'.tasks ≡ get k w.tasks
    stopped :
        (k : String)
        → IsStopped (get k w.tasks) ⊎ (contains k ks ≡ true)
        → IsStopped (get k w'.tasks)

  reconsider_tasks-Reconsidered :
      (ks : List String) (w w' : Workspace)
      → reconsider_tasks fresh token ks w ≡ ok w'
      → Reconsidered ks w w'
  unfolding reconsider_tasks contains
  reconsider_tasks-Reconsidered [] w w' h = subst (Reconsidered [] w) (ok-injective h) (record {
    cases = refl;
    others = λ k i. refl;
    stopped = λ k s. elim s [ inl t ↦ t | inr i ↦ absurd (cc i) ];
  })
  reconsider_tasks-Reconsidered (key ∷ ks) w w' h =
      let (t, _, h1) = bind_inversion (item key w.tasks) _ h in
      let (ruling, _, h2) = bind_inversion (policy_result _ key (fresh.task_at key) false) _ h1 in
      let rest = reconsider_tasks-Reconsidered ks _ w' h2 in
      let last : Task = record (tainted token t) {
        status = if is_deny ruling.verdict then deny else needs_human;
      } in
      let halted : last.status ≢ ready =
        if_both (λ (s : TaskStatus). s ≢ ready) (is_deny ruling.verdict) (λ p. cc p) (λ p. cc p) in
      record {
        cases = rest.cases;
        others = λ k i.
            let off : (key == k) ≡ false = ground (arith, i) in
            let later : contains k ks ≡ false = ground (arith, i) in
            rest.others k later ∙ get-put_twice key k (tainted token t) last w.tasks ∙ rw off refl;
        stopped = λ k s. rest.stopped k (elim (Bool-cases (key == k)) [
          | inl e ↦
              inl (last, get-put_twice key k (tainted token t) last w.tasks ∙ rw e refl, halted)
          | inr e ↦ elim s [
            | inl o ↦ inl (o.0, get-put_twice key k (tainted token t) last w.tasks ∙ rw e o.1, o.2)
            | inr i ↦ inr (ground (arith, i, e))
          ]
        ]);
      }

found_report-some :
    (c : RiskCase) (o : Option Report) (r : Report)
    → found_report c o ≡ ok r
    → (o ≡ some r) × (r.case_id ≡ c.case_id)
found_report-some c none r h = absurd (cc h)
found_report-some c (some s) r h =
    let (same, e) = raise_if_inversion (not (s.case_id == c.case_id)) _ _ h in
    (
      ap some (ok-injective e),
      subst (λ (x : Report). x.case_id ≡ c.case_id) (ok-injective e)
          (not_ne-eq s.case_id c.case_id same),
    )

visible_case-some :
    (actor : Actor) (o : Option RiskCase) (c : RiskCase) → visible_case actor o ≡ ok c → o ≡ some c
visible_case-some actor none c h = absurd (cc h)
visible_case-some actor (some d) c h =
    let (_, same) = raise_if_inversion (not (contains d.scope.subject_id actor.subjects)) _ _ h in
    ap some (ok-injective same)

independent_handoff-some :
    (actor : Actor) (case_id : String) (c : RiskCase) (o : Option Handoff) (h : Handoff)
    → independent_handoff actor case_id c o ≡ ok h
    → (o ≡ some h) × (is_independent actor case_id c h ≡ true)
unfolding independent_handoff
independent_handoff-some actor case_id c none h e = absurd (cc e)
independent_handoff-some actor case_id c (some g) h e =
    let (fit, same) = raise_if_inversion (not (is_independent actor case_id c g)) _ _ e in
    (
      ap some (ok-injective same),
      subst (λ (x : Handoff). is_independent actor case_id c x ≡ true) (ok-injective same)
          (ground (arith, fit)),
    )

module _ ⦃runtime : Runtime⦄ where
  -- The report is of the case as it is, and was made on the memory as it is.
  abbrev pub IsCurrentReport : Workspace → RiskCase → Report → Type 0
  IsCurrentReport w c r =
      (r.case_id ≡ c.case_id)
      × (r.case_version ≡ c.version)
      × (is_open c ≡ true)
      × (investigation_basis w c.case_id ≡ ok r.basis_hash)

  valid_report-IsCurrentReport :
      (w : Workspace) (c : RiskCase) (id : String) (r : Report)
      → valid_report w c id ≡ ok r
      → (get id w.reports ≡ some r) × IsCurrentReport w c r
  unfolding valid_report
  valid_report-IsCurrentReport w c id r h =
      let (s, found, h1) = bind_inversion (found_report c (get id w.reports)) _ h in
      let (fit, h2) =
        raise_if_inversion (not (eqb s.case_version c.version) || not (is_open c)) _ _ h1 in
      let (basis, hashed, h3) = bind_inversion (investigation_basis w c.case_id) _ h2 in
      let (same, h4) = raise_if_inversion (not (s.basis_hash == basis)) _ _ h3 in
      let (_, h5) = raise_if_inversion (is_source_report s || has_obligations w c.case_id) _ _ h4 in
      let (stored, mine) = found_report-some c (get id w.reports) s found in
      subst (λ (x : Report). (get id w.reports ≡ some x) × IsCurrentReport w c x) (ok-injective h5)
        (
          stored,
          (
            mine,
            ground (arith, fit),
            ground (arith, fit),
            hashed ∙ ap ok (sym (not_ne-eq s.basis_hash basis same)),
          ),
        )

  -- The reviewer is neither who opened the case nor who investigated it, and accepted the handoff of the
  -- case as it is, with a report on the memory as it is.
  pub record IsIndependent (w : Workspace) (actor : Actor) (case_id handoff_id : String)
      (c : RiskCase) : Type 0 where
    pub handed : Handoff
    pub report : Report
    pub known : get case_id w.cases ≡ some c
    pub found : get handoff_id w.handoffs ≡ some handed
    pub of_case : handed.case_id ≡ case_id
    pub of_version : handed.case_version ≡ c.version
    pub accepted : handed.accepted ≡ true
    pub addressed : handed.reviewer_id ≡ actor.actor_id
    pub not_opener : c.opened_by ≢ actor.actor_id
    pub not_investigator : handed.investigator_id ≢ actor.actor_id
    pub reported : get handed.report_id w.reports ≡ some report
    pub current : IsCurrentReport w c report

  ne_of_test : (a b : String) → (a == b) ≡ false → a ≢ b
  ne_of_test a b h p = cc ((eq_iff a b).1 p, h)

  independent_parts :
      (actor : Actor) (case_id : String) (c : RiskCase) (h : Handoff)
      → is_independent actor case_id c h ≡ true
      → (h.case_id ≡ case_id)
        × (h.accepted ≡ true)
        × (h.reviewer_id ≡ actor.actor_id)
        × (c.opened_by ≢ actor.actor_id)
        × (h.investigator_id ≢ actor.actor_id)
  independent_parts actor case_id c h e = (
    (eq_iff h.case_id case_id).0 (ground (arith, e)),
    ground (arith, e),
    (eq_iff h.reviewer_id actor.actor_id).0 (ground (arith, e)),
    ne_of_test c.opened_by actor.actor_id (ground (arith, e)),
    ne_of_test h.investigator_id actor.actor_id (ground (arith, e)),
  )

-- When the change of `resolve` is made, the case was open, the actor is the reviewer to whom an accepted
-- handoff of this version of the case is addressed, and neither opened nor investigated the case, and the
-- report of the handoff was made on the memory as it is. The case is then resolved by the actor under
-- the next version; no task that rests on its scope is READY any more, and every other task is as before.
pub resolve_change-IsIndependent :
    ⦃runtime : Runtime⦄ (fresh : Fresh) (actor : Actor)
    (case_id handoff_id resolution evidence_digest : String) (w : Workspace) (seq : ℕ)
    (w' : Workspace) (result : Dict Value)
    → resolve_change fresh actor case_id handoff_id resolution evidence_digest w seq
      ≡ ok (w', result)
    → (c : RiskCase) × IsIndependent w actor case_id handoff_id c
      × (get case_id w'.cases ≡ some (resolved c actor resolution seq))
      × ((k : String)
          → contains k (affected_tasks w.tasks c.scope) ≡ true
          → IsStopped (get k w'.tasks))
      × ((k : String)
          → contains k (affected_tasks w.tasks c.scope) ≡ false
          → get k w'.tasks ≡ get k w.tasks)
unfolding resolve_change
resolve_change-IsIndependent fresh actor case_id handoff_id resolution evidence_digest w seq w'
      result h =
    let (c, seen, h1) = bind_inversion (case_of w actor case_id) _ h in
    let (g, handed, h2) =
      bind_inversion (independent_handoff actor case_id c (get handoff_id w.handoffs)) _ h1 in
    let (r, valid, h3) = bind_inversion (valid_report w c g.report_id) _ h2 in
    let (same, h4) = raise_if_inversion (not (eqb g.case_version c.version)) _ _ h3 in
    let (artifacts, _, h5) =
      bind_inversion
        (link_resolution actor case_id (resolved c actor resolution seq) r g evidence_digest seq
          w.artifacts)
        _ h4 in
    let (history, _, h6) = bind_inversion (item case_id w.case_history) _ h5 in
    let (marked, done, h7) =
      bind_inversion (reconsider_tasks fresh _ (affected_tasks w.tasks c.scope) _) _ h6 in
    let loop =
      reconsider_tasks-Reconsidered fresh _ (affected_tasks w.tasks c.scope) _ marked done in
    let (found, fit) =
      independent_handoff-some actor case_id c (get handoff_id w.handoffs) g handed in
    let (of_case, accepted, addressed, not_opener, not_investigator) =
      independent_parts actor case_id c g fit in
    let (reported, current) = valid_report-IsCurrentReport w c g.report_id r valid in
    let cases : w'.cases ≡ put case_id (resolved c actor resolution seq) w.cases =
      ap (λ (x : Workspace × Dict Value). x.0.cases) (sym (ok-injective h7)) ∙ loop.cases in
    let tasks : (k : String) → get k w'.tasks ≡ get k marked.tasks =
      λ k. ap (λ (x : Workspace × Dict Value). get k x.0.tasks) (sym (ok-injective h7)) in
    (
      c,
      record {
        handed = g;
        report = r;
        known = visible_case-some actor (get case_id w.cases) c seen;
        found = found;
        of_case = of_case;
        of_version = ground (arith, same);
        accepted = accepted;
        addressed = addressed;
        not_opener = not_opener;
        not_investigator = not_investigator;
        reported = reported;
        current = current;
      },
      ap (get case_id) cases
          ∙ rw (get-put case_id case_id (resolved c actor resolution seq) w.cases, eq_refl case_id)
              refl,
      λ k i. subst IsStopped (sym (tasks k)) (loop.stopped k (inr i)),
      λ k i. tasks k ∙ loop.others k i,
    )
