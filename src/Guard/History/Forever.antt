-- ===== src/Guard/History/Forever.antt =====
-- What a history of calls settles for the decisions and results that come after it.
use proofops_memoryguard.Base.{
  String, true, false, Option, some, ◌++◌, ◌≡◌, ◌≢◌, sym, ap, ◌∙◌, any_by, some-eq,
}
use proofops_memoryguard.Errors.{Error, Result, ok, err, ok-injective}
use proofops_memoryguard.Canonical.{subject_ref}
use proofops_memoryguard.Python.Number.{Datetime}
use proofops_memoryguard.Python.Runtime.{Runtime}
use proofops_memoryguard.Models.{
  SubjectMemory, PaymentIntent, DecisionDraft, FinalizationResult, deny, ready,
}
use proofops_memoryguard.Policy.Decide
use proofops_memoryguard.Policy.Decide.{PolicyDecision}
use proofops_memoryguard.Policy.Decide.Verdicts.{blocks, decide-blocked}
use proofops_memoryguard.Ports.{MemoryPort, AnchorPort, IsAvailable}
use proofops_memoryguard.Guard.{Guard}
use proofops_memoryguard.Guard.Sound.{IsSound}
use proofops_memoryguard.Guard.Observe.{or_empty}
use proofops_memoryguard.Guard.Decide as Deciding
use proofops_memoryguard.Guard.Decide.Drafts
use proofops_memoryguard.Guard.Finalize
use proofops_memoryguard.Guard.Finalize.Results
use proofops_memoryguard.Guard.History.{
  history_of, Extends, Reach, Reach-IsSound, Reach-Extends, or_empty-history,
}

module _ ⦃runtime : Runtime⦄ {M : Type 0} {port : MemoryPort M} (a : IsAvailable port) where
  -- Once an active revocation or open dispute of a target is stored for a subject in a sound memory,
  -- no later call of `decide` on that subject and target returns anything but DENY, whatever calls
  -- came between.
  pub blocked_forever :
      (m m' : M) (g : Guard) (intent : PaymentIntent) (fresh : Deciding.Fresh) (ref : String)
      (d : DecisionDraft)
      → IsSound a m
      → Reach a m m'
      → subject_ref intent.subject_id ≡ ok ref
      → any_by (blocks intent) (history_of (a.subject m ref)) ≡ true
      → (Deciding.decide port g intent fresh m').0 ≡ ok d
      → d.verdict ≡ deny
  blocked_forever m m' g intent fresh ref d sound reach named blocked h =
      of (Drafts.decide-Outcome a m' g intent fresh)
    where
      grown : Extends (a.subject m ref) (a.subject m' ref)
      grown = Reach-Extends a m m' ref sound reach

      denied :
          (s : SubjectMemory) (p : PolicyDecision)
          → s ≡ or_empty ref fresh.opened_at (a.subject m' ref)
          → Decide.decide intent s.observations fresh.decided_at ≡ ok p
          → p.verdict ≡ deny
      denied s p opened policy =
          let later : s.observations ≡ history_of (a.subject m ref) ++ grown.added =
            ap (λ (t : SubjectMemory). t.observations) opened
            ∙ or_empty-history ref fresh.opened_at (a.subject m' ref)
            ∙ grown.grown in
          let (q, e, v) =
            decide-blocked intent (history_of (a.subject m ref)) grown.added fresh.decided_at
              blocked in
          ap (λ (x : PolicyDecision). x.verdict)
            (ok-injective
              (sym policy ∙ ap (λ xs. Decide.decide intent xs fresh.decided_at) later ∙ e))
          ∙ v

      of :
          Drafts.Outcome a m' g intent fresh (Deciding.decide port g intent fresh m')
          → d.verdict ≡ deny
      of (Drafts.refused e p) = cc (ap (λ (q : Result DecisionDraft × M). q.0) p, h)
      of (Drafts.drafted ref' s p d' checked named' opened policy r bound q) =
          let same : d ≡ d' = ok-injective (sym h ∙ ap (λ (x : Result DecisionDraft × M). x.0) q) in
          let mine : s ≡ or_empty ref fresh.opened_at (a.subject m' ref) =
            opened
            ∙ ap (λ k. or_empty k fresh.opened_at (a.subject m' k))
                (ok-injective (sym named' ∙ named)) in
          ap (λ (x : DecisionDraft). x.verdict) same ∙ r.verdict ∙ denied s p mine policy

  -- A READY draft whose subject has a later version cannot be finalized: the call raises and changes
  -- nothing.
  pub finalize-stale :
      (m : M) (g : Guard) (anchor : AnchorPort) (id : String) (tx : Option String) (now : Datetime)
      (d : DecisionDraft) (s : SubjectMemory)
      → a.decision m id ≡ some d
      → d.verdict ≡ ready
      → a.subject m d.subject_ref ≡ some s
      → s.version ≢ d.memory_version
      → (e : Error) × (Finalize.finalize port g anchor id tx now m ≡ (err e, m))
  finalize-stale m g anchor id tx now d s stored is_ready current stale =
      of (Results.finalize-Outcome a m g anchor id tx now)
    where
      of :
          Results.Outcome a m g id now (Finalize.finalize port g anchor id tx now m)
          → (e : Error) × (Finalize.finalize port g anchor id tx now m ≡ (err e, m))
      of (Results.refused e p) = (e, p)
      of (Results.decided d' stored' passed ending) =
          let same : d' ≡ d = some-eq (sym stored' ∙ stored) in
          let (t, found, intact, version, root) =
            passed.memory (ap (λ (x : DecisionDraft). x.verdict) same ∙ is_ready) in
          let one : t ≡ s =
            some-eq
              (sym found ∙ ap (λ (x : DecisionDraft). a.subject m x.subject_ref) same ∙ current) in
          absurd (
            stale (
              ap (λ (x : SubjectMemory). x.version) (sym one)
              ∙ version
              ∙ ap (λ (x : DecisionDraft). x.memory_version) same))

  -- No result that `finalize` returns after any history of calls from a sound memory is executable.
  pub finalize-inert :
      (m m' : M) (g : Guard) (anchor : AnchorPort) (id : String) (tx : Option String)
      (now : Datetime) (r : FinalizationResult)
      → IsSound a m
      → Reach a m m'
      → (Finalize.finalize port g anchor id tx now m').0 ≡ ok r
      → r.executable ≡ false
  finalize-inert m m' g anchor id tx now r sound reach h =
      of (Results.finalize-Outcome a m' g anchor id tx now)
    where
      returned_result :
          {n : M} (r' : FinalizationResult)
          → Finalize.finalize port g anchor id tx now m' ≡ (ok r', n)
          → r ≡ r'
      returned_result r' p =
          ok-injective (sym h ∙ ap (λ (q : Result FinalizationResult × M). q.0) p)

      inert :
          (d : DecisionDraft)
          → Results.Ending a m' d id (Finalize.finalize port g anchor id tx now m')
          → r.executable ≡ false
      inert d (Results.refused e p) = cc (ap (λ (q : Result FinalizationResult × M). q.0) p, h)
      inert d (Results.returned r' stored same p) =
          rw (returned_result r' p) ((Reach-IsSound a m m' sound reach).result_inert id r' stored)
      inert d (Results.reported r' i p) = rw (returned_result r' p) i.executable
      inert d (Results.saved r' i p) = rw (returned_result r' p) i.executable

      of :
          Results.Outcome a m' g id now (Finalize.finalize port g anchor id tx now m')
          → r.executable ≡ false
      of (Results.refused e p) = cc (ap (λ (q : Result FinalizationResult × M). q.0) p, h)
      of (Results.decided d stored passed ending) = inert d ending
