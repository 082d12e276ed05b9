-- ===== src/Guard/History.antt =====
-- Sequences of calls on one memory: the invariant, the history that only grows, and what follows
-- for decisions and results.
pub mod Forever
pub mod Tests
use proofops_memoryguard.Base.{
  ℕ, ◌+◌, String, Bool, true, false, Option, none, some, List, [], ◌∷◌, ◌++◌, ◌≡◌, refl, sym, ap,
  subst, ◌∙◌, ◌==◌, eqb, if◌then◌else◌, arith, inl, inr, ◌⊎◌, Bool-cases, eq_iff, some-eq,
}
use mathlib.Core.List.{append-nil, append_assoc}
use proofops_memoryguard.Errors.{Result, ok, err}
use proofops_memoryguard.Python.Number.{Datetime}
use proofops_memoryguard.Python.Runtime.{Runtime}
use proofops_memoryguard.Models.{
  Observation, StoredObservation, SubjectMemory, PaymentIntent, DecisionDraft, FinalizationResult,
  ObservationReceipt, empty_subject,
}
use proofops_memoryguard.Proof.Chain.{IsIntact}
use proofops_memoryguard.Proof.Decision.{IsBound}
use proofops_memoryguard.Ports.{MemoryPort, AnchorPort, IsAvailable, version_of}
use proofops_memoryguard.Guard.{Guard}
use proofops_memoryguard.Guard.Sound.{IsSound, or_empty-version}
use proofops_memoryguard.Guard.Observe
use proofops_memoryguard.Guard.Observe.{or_empty, updated_subject, observe}
use proofops_memoryguard.Guard.Observe.Append
use proofops_memoryguard.Guard.Observe.Append.{observe-Outcome}
use proofops_memoryguard.Guard.Decide
use proofops_memoryguard.Guard.Decide.Drafts
use proofops_memoryguard.Guard.Finalize
use proofops_memoryguard.Guard.Finalize.Results
use proofops_memoryguard.Guard.Finalize.Results.{IsInert, Ending}

-- the observations of a subject, none if nothing is stored
abbrev pub history_of : Option SubjectMemory → List StoredObservation
history_of none = []
history_of (some s) = s.observations

-- The later history is the earlier one with observations added at its end.
pub record Extends (before after : Option SubjectMemory) : Type 0 where
  pub added : List StoredObservation
  pub grown : history_of after ≡ history_of before ++ added

pub Extends-refl : (o : Option SubjectMemory) → Extends o o
Extends-refl o = record { added = []; grown = sym (append-nil (history_of o)) }

pub Extends-trans : (o p q : Option SubjectMemory) → Extends o p → Extends p q → Extends o q
Extends-trans o p q a b = record {
  added = a.added ++ b.added;
  grown = b.grown ∙ ap (λ xs. xs ++ b.added) a.grown ∙ append_assoc (history_of o) a.added b.added;
}

-- An entry of a map after one write: the written one, or one from before.
entry :
    {V : Type 0} (P : String → V → Type 0) (key k : String) (v w : V) (old : Option V)
    → P key v
    → (old ≡ some w → P k w)
    → (if key == k then some v else old) ≡ some w
    → P k w
entry P key k v w old new before h = elim (Bool-cases (key == k)) [
  | inl e ↦ subst (λ j. P j w) ((eq_iff key k).0 e) (subst (P key) (some-eq (rw e at h)) new)
  | inr e ↦ before (rw e at h)
]

pub or_empty-history :
    (ref : String) (now : Datetime) (o : Option SubjectMemory)
    → (or_empty ref now o).observations ≡ history_of o
unfolding empty_subject
or_empty-history ref now none = refl
or_empty-history ref now (some s) = refl

module _ ⦃runtime : Runtime⦄ {M : Type 0} {port : MemoryPort M} (a : IsAvailable port) where
  -- A call of the guard, whatever it returns.
  pub data Step (m m' : M) : Type 0 where
    observes :
        (o : Observation) (fresh : Observe.Fresh) → m' ≡ (observe port o fresh m).1 → Step m m'
    decides :
        (g : Guard) (intent : PaymentIntent) (fresh : Decide.Fresh)
        → m' ≡ (Decide.decide port g intent fresh m).1
        → Step m m'
    finalizes :
        (g : Guard) (anchor : AnchorPort) (id : String) (tx : Option String) (now : Datetime)
        → m' ≡ (Finalize.finalize port g anchor id tx now m).1
        → Step m m'

  -- Any number of calls, one after the other.
  pub data Reach (m : M) : M → Type 0 where
    start : Reach m m
    then_step : {p q : M} → Reach m p → Step p q → Reach m q

  -- What one call did to the maps: nothing, or one entry.
  pub data Effect (m m' : M) : Type 0 where
    unchanged : m' ≡ m → Effect m m'
    grew :
        (ref : String) (s : SubjectMemory) (item : StoredObservation) (now opened : Datetime)
        → s ≡ or_empty ref opened (a.subject m ref)
        → IsIntact (updated_subject ref s item now)
        → m' ≡ (port.commit_observation s.version (updated_subject ref s item now) item m).1
        → Effect m m'
    drafted : (d : DecisionDraft) → IsBound d → m' ≡ (port.save_decision d m).1 → Effect m m'
    finalized :
        (d : DecisionDraft) (r : FinalizationResult)
        → IsInert d r
        → m' ≡ (port.save_finalization r m).1
        → Effect m m'

  ending-Effect :
      (m m' : M) (d : DecisionDraft) (id : String) (out : Result FinalizationResult × M)
      → m' ≡ out.1
      → Ending a m d id out
      → Effect m m'
  ending-Effect m m' d id out e (Results.refused x p) =
      unchanged (e ∙ ap (λ (q : Result FinalizationResult × M). q.1) p)
  ending-Effect m m' d id out e (Results.returned r stored same p) =
      unchanged (e ∙ ap (λ (q : Result FinalizationResult × M). q.1) p)
  ending-Effect m m' d id out e (Results.reported r i p) =
      unchanged (e ∙ ap (λ (q : Result FinalizationResult × M). q.1) p)
  ending-Effect m m' d id out e (Results.saved r i p) =
      finalized d r i (e ∙ ap (λ (q : Result FinalizationResult × M). q.1) p)

  step-Effect : (m m' : M) → IsSound a m → Step m m' → Effect m m'
  step-Effect m m' sound (observes o fresh e) = of (observe-Outcome a m o fresh sound)
    where
      of : Append.Outcome a m o fresh (observe port o fresh m) → Effect m m'
      of (Append.refused x p) = unchanged (e ∙ ap (λ (q : Result ObservationReceipt × M). q.1) p)
      of (Append.repeated ref s item named opened found p) =
          unchanged (e ∙ ap (λ (q : Result ObservationReceipt × M). q.1) p)
      of (Append.appended ref s c item named opened classified unique stores intact p) =
          grew ref s item fresh.updated_at fresh.opened_at opened intact
            (e ∙ ap (λ (q : Result ObservationReceipt × M). q.1) p)
  step-Effect m m' sound (decides g intent fresh e) = of (Drafts.decide-Outcome a m g intent fresh)
    where
      of : Drafts.Outcome a m g intent fresh (Decide.decide port g intent fresh m) → Effect m m'
      of (Drafts.refused x p) = unchanged (e ∙ ap (λ (q : Result DecisionDraft × M). q.1) p)
      of (Drafts.drafted ref s p d checked named opened policy r bound q) =
          drafted d bound (e ∙ ap (λ (q : Result DecisionDraft × M). q.1) q)
  step-Effect m m' sound (finalizes g anchor id tx now e) =
      of (Results.finalize-Outcome a m g anchor id tx now)
    where
      of : Results.Outcome a m g id now (Finalize.finalize port g anchor id tx now m) → Effect m m'
      of (Results.refused x p) = unchanged (e ∙ ap (λ (q : Result FinalizationResult × M). q.1) p)
      of (Results.decided d stored passed ending) = ending-Effect m m' d id _ e ending

  subject_after_commit :
      (m : M) (ref : String) (s : SubjectMemory) (item : StoredObservation) (now opened : Datetime)
      (k : String)
      → s ≡ or_empty ref opened (a.subject m ref)
      → a.subject (port.commit_observation s.version (updated_subject ref s item now) item m).1 k
        ≡ (if ref == k then some (updated_subject ref s item now) else a.subject m k)
  unfolding updated_subject
  subject_after_commit m ref s item now opened k e =
      let fits : version_of (a.subject m ref) ≡ s.version =
        or_empty-version ref opened (a.subject m ref)
        ∙ ap (λ (t : SubjectMemory). t.version) (sym e) in
      let same : eqb (version_of (a.subject m ref)) s.version ≡ true = ground (arith, fits) in
      a.subject-commit s.version (updated_subject ref s item now) item m k ∙ (rw same)

  grew-Extends :
      (m : M) (ref : String) (s : SubjectMemory) (item : StoredObservation) (now opened : Datetime)
      (k : String)
      → s ≡ or_empty ref opened (a.subject m ref)
      → Extends
          (a.subject m k)
          (if ref == k then some (updated_subject ref s item now) else a.subject m k)
  unfolding updated_subject
  grew-Extends m ref s item now opened k o = elim (Bool-cases (ref == k)) [
    | inl e ↦ rw e (record {
      added = item ∷ [];
      grown =
          ap (λ xs. xs ++ item ∷ [])
            (ap (λ (t : SubjectMemory). t.observations) o
              ∙ or_empty-history ref opened (a.subject m ref)
              ∙ ap (λ j. history_of (a.subject m j)) ((eq_iff ref k).0 e));
    })
    | inr e ↦ rw e (Extends-refl (a.subject m k))
  ]

  Effect-Extends : (m m' : M) (k : String) → Effect m m' → Extends (a.subject m k) (a.subject m' k)
  Effect-Extends m m' k (unchanged e) = rw e (Extends-refl (a.subject m k))
  Effect-Extends m m' k (grew ref s item now opened o intact e) =
      rw (e, subject_after_commit m ref s item now opened k o)
        (grew-Extends m ref s item now opened k o)
  Effect-Extends m m' k (drafted d bound e) =
      rw (e, a.subject-save_decision d m k) (Extends-refl (a.subject m k))
  Effect-Extends m m' k (finalized d r i e) =
      rw (e, a.subject-save_finalization r m k) (Extends-refl (a.subject m k))

  Effect-IsSound : (m m' : M) → IsSound a m → Effect m m' → IsSound a m'
  Effect-IsSound m m' v (unchanged e) = rw e v
  Effect-IsSound m m' v (grew ref s item now opened o intact e) =
      let at = λ (k : String). subject_after_commit m ref s item now opened k o in
      let t = updated_subject ref s item now in
      rw e (record {
        subject_key = λ k w h.
            entry (λ j (x : SubjectMemory). x.subject_ref ≡ j) ref k t w (a.subject m k)
              (unfold updated_subject in refl) (v.subject_key k w) (sym (at k) ∙ h);
        subject_intact = λ k w h.
            entry (λ j (x : SubjectMemory). IsIntact x) ref k t w (a.subject m k) intact
              (v.subject_intact k w) (sym (at k) ∙ h);
        decision_key =
            λ k w h. v.decision_key k w (sym (a.decision-commit s.version t item m k) ∙ h);
        decision_bound =
            λ k w h. v.decision_bound k w (sym (a.decision-commit s.version t item m k) ∙ h);
        result_key =
            λ k w h. v.result_key k w (sym (a.finalization-commit s.version t item m k) ∙ h);
        result_inert =
            λ k w h. v.result_inert k w (sym (a.finalization-commit s.version t item m k) ∙ h);
      })
  Effect-IsSound m m' v (drafted d bound e) = rw e (record {
    subject_key = λ k w h. v.subject_key k w (sym (a.subject-save_decision d m k) ∙ h);
    subject_intact = λ k w h. v.subject_intact k w (sym (a.subject-save_decision d m k) ∙ h);
    decision_key = λ k w h.
        entry (λ j (x : DecisionDraft). x.decision_id ≡ j) d.decision_id k d w (a.decision m k) refl
          (v.decision_key k w) (sym (a.decision-save_decision d m k) ∙ h);
    decision_bound = λ k w h.
        entry (λ j (x : DecisionDraft). IsBound x) d.decision_id k d w (a.decision m k) bound
          (v.decision_bound k w) (sym (a.decision-save_decision d m k) ∙ h);
    result_key = λ k w h. v.result_key k w (sym (a.finalization-save_decision d m k) ∙ h);
    result_inert = λ k w h. v.result_inert k w (sym (a.finalization-save_decision d m k) ∙ h);
  })
  Effect-IsSound m m' v (finalized d r i e) = rw e (record {
    subject_key = λ k w h. v.subject_key k w (sym (a.subject-save_finalization r m k) ∙ h);
    subject_intact = λ k w h. v.subject_intact k w (sym (a.subject-save_finalization r m k) ∙ h);
    decision_key = λ k w h. v.decision_key k w (sym (a.decision-save_finalization r m k) ∙ h);
    decision_bound = λ k w h. v.decision_bound k w (sym (a.decision-save_finalization r m k) ∙ h);
    result_key = λ k w h.
        entry (λ j (x : FinalizationResult). x.decision_id ≡ j) r.decision_id k r w
          (a.finalization m k) refl (v.result_key k w)
          (sym (a.finalization-save_finalization r m k) ∙ h);
    result_inert = λ k w h.
        entry (λ j (x : FinalizationResult). x.executable ≡ false) r.decision_id k r w
          (a.finalization m k) i.executable (v.result_inert k w)
          (sym (a.finalization-save_finalization r m k) ∙ h);
  })

  -- Whatever is called, with whatever arguments and answers, a sound memory stays sound: chains stay
  -- intact under their own keys, decisions bound, and results not executable.
  pub Reach-IsSound : (m m' : M) → IsSound a m → Reach m m' → IsSound a m'
  Reach-IsSound m m' v start = v
  Reach-IsSound m m' v (then_step {p = p} r s) =
      let w = Reach-IsSound m p v r in Effect-IsSound p m' w (step-Effect p m' w s)

  -- From a sound memory, no call removes, changes or reorders an observation of any subject: the
  -- history of a subject only grows at its end.
  pub Reach-Extends :
      (m m' : M) (k : String) → IsSound a m → Reach m m' → Extends (a.subject m k) (a.subject m' k)
  Reach-Extends m m' k v start = Extends-refl (a.subject m k)
  Reach-Extends m m' k v (then_step {p = p} r s) =
      Extends-trans (a.subject m k) (a.subject p k) (a.subject m' k) (Reach-Extends m p k v r)
        (Effect-Extends p m' k (step-Effect p m' (Reach-IsSound m p v r) s))
