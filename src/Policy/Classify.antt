-- ===== src/Policy/Classify.antt =====
-- `classify_observation` of policy.py, stage by stage, in the order of the source.
mod Sorting
pub mod Partition
pub mod Tests
use proofops_memoryguard.Base.{
  String, Bool, true, false, Option, none, some, List, [], ◌∷◌, ◌++◌, ◌&&◌, ◌==◌, not, Dict, keys,
  put, contains, sorted_set, filter_by, is_empty, if◌then◌else◌,
}
use proofops_memoryguard.Errors.{Result, ok, err, ◌>>=◌}
use proofops_memoryguard.Python.Value.{Value}
use proofops_memoryguard.Python.Runtime.{Runtime}
use proofops_memoryguard.Models.{
  Observation, EvidenceMode, demo_fixture, caller_supplied, identity_verified, base_testnet,
  base_mainnet, ObservationKind, vendor_note, kind_eq, mode_eq, ObservationStatus, accepted,
  partially_accepted, quarantined, review_required,
}
use proofops_memoryguard.Policy.Facts.{FactCheck, valid, invalid, allowed_fields, validate_fact}

-- `ObservationClassification`
pub record Classification : Type 0 where
  pub status : ObservationStatus
  pub accepted_facts : Dict Value
  pub quarantined_fields : List String
  pub reason_codes : List String

-- The three locals that the stages build up.
pub record Sorted : Type 0 where
  pub kept : Dict Value
  pub held : List String
  pub reasons : List String

-- `_INSTRUCTION_PATTERNS`
abbrev pub instruction_patterns : List (String × String)
instruction_patterns =
    ("ignore_previous_rules", "(?i)ignore\\s+(all\\s+)?(previous|prior|safety)")
    ∷ ("authority_override", "(?i)(override|bypass|disable).{0,24}(policy|rule|guard)")
    ∷ ("payment_instruction", "(?i)(pay|transfer|send).{0,24}(now|immediately|funds|money)")
    ∷ ("prompt_boundary_attack", "(?i)(system prompt|developer message|act as|tool call)")
    ∷ ("secret_request", "(?i)(private key|api key|access token|cookie|password)")
    ∷ []

-- `_TRUSTED_MODES`
unfoldable pub is_trusted : EvidenceMode → Bool
is_trusted caller_supplied = false
is_trusted _ = true

-- `if text:`
abbrev pub has_text : Option String → Bool
has_text none = false
has_text (some s) = not (s == "")

-- quarantined.append(key); reasons.append(reason)
unfoldable pub hold : String → String → Sorted → Sorted
hold key reason s = record s { held = s.held ++ key ∷ []; reasons = s.reasons ++ reason ∷ [] }

unfoldable pub sort_checked : String → FactCheck → Sorted → Sorted
sort_checked key (valid w) s = record s { kept = put key w s.kept }
sort_checked key (invalid reason) s = hold key reason s

module _ ⦃runtime : Runtime⦄ where
  open runtime use {re_search}

  -- the body of the loop over `observation.facts.items()`
  unfoldable pub sort_fact : ObservationKind → String → Value → Sorted → Result Sorted
  sort_fact kind key v s =
      if contains key (allowed_fields kind)
      then (do check ← validate_fact kind key v; ok (sort_checked key check s))
      else ok (hold key "unknown_fact_field" s)

  unfoldable pub sort_facts : ObservationKind → Dict Value → Sorted → Result Sorted
  sort_facts kind [] s = ok s
  sort_facts kind ((key, v) ∷ rest) s = do s' ← sort_fact kind key v s; sort_facts kind rest s'

  unfoldable pub matched_codes : String → List (String × String) → List String
  matched_codes text [] = []
  matched_codes text ((code, pattern') ∷ rest) =
      let more = matched_codes text rest in if re_search pattern' text then code ∷ more else more

  abbrev or_untrusted : List String → List String
  or_untrusted [] = "untrusted_free_text" ∷ []
  or_untrusted (c ∷ cs) = c ∷ cs

  unfoldable pub hold_raw_text : Option String → Sorted → Sorted
  hold_raw_text none s = s
  hold_raw_text (some text) s = if text == "" then s else record s {
    held = s.held ++ "raw_text" ∷ [];
    reasons = s.reasons ++ or_untrusted (matched_codes text instruction_patterns);
  }

unfoldable pub drop_untrusted : EvidenceMode → Sorted → Sorted
drop_untrusted mode s =
    if not (is_trusted mode) && not (is_empty s.kept)
    then record {
      kept = [];
      held = s.held ++ keys s.kept;
      reasons = s.reasons ++ "source_not_identity_verified" ∷ [];
    }
    else s

unfoldable pub drop_vendor_note : ObservationKind → Sorted → Sorted
drop_vendor_note kind s =
    if kind_eq kind vendor_note
    then record {
      kept = [];
      held = if contains "raw_text" s.held then s.held else s.held ++ "raw_text" ∷ [];
      reasons = s.reasons ++ "vendor_text_never_authoritative" ∷ [];
    }
    else s

unfoldable pub classified_status : Observation → Sorted → ObservationStatus
classified_status o s =
    if not (is_empty s.kept) && not (is_empty s.held)
    then partially_accepted
    else if not (is_empty s.kept)
    then accepted
    else if mode_eq o.evidence_mode caller_supplied && not (is_empty o.facts)
    then review_required
    else quarantined

abbrev or_accepted : List String → List String
or_accepted [] = "structured_fact_accepted" ∷ []
or_accepted (r ∷ rs) = r ∷ rs

unfoldable pub classification_of : Observation → Sorted → Classification
classification_of o s = record {
  status = classified_status o s;
  accepted_facts = s.kept;
  quarantined_fields = sorted_set s.held;
  reason_codes = sorted_set (or_accepted s.reasons);
}

abbrev pub unsorted : Sorted
unsorted = record { kept = []; held = []; reasons = [] }

-- the stages behind the loop
unfoldable pub settle : ⦃runtime : Runtime⦄ → Observation → Sorted → Sorted
settle o s = drop_vendor_note o.kind (drop_untrusted o.evidence_mode (hold_raw_text o.raw_text s))

unfoldable pub classify_observation : ⦃runtime : Runtime⦄ → Observation → Result Classification
classify_observation o = do
  s ← sort_facts o.kind o.facts unsorted
  ok (classification_of o (settle o s))
