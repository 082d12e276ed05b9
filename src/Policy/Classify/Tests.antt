-- ===== src/Policy/Classify/Tests.antt =====
-- The classification run on concrete observations, and its theorems at those observations.
use proofops_memoryguard.Base.{
  none, [], ◌∷◌, ◌≡◌, refl, get, keys, contains, not, is_some, IsDistinct, if◌then◌else◌,
}
use proofops_memoryguard.Models.{quarantined, review_required, partially_accepted}
use proofops_memoryguard.Policy.Classify.{Classification, classify_observation}
use proofops_memoryguard.Policy.Classify.Sorting.{accepted_fact}
use proofops_memoryguard.Policy.Classify.Partition.{
  lets_through, classify-accepts, classify-partitions,
}
use proofops_memoryguard.Samples.{running, demo_runtime, baseline, hearsay, value_of}

abbrev nothing : Classification
nothing = record {
  status = quarantined;
  accepted_facts = [];
  quarantined_fields = [];
  reason_codes = [];
}

abbrev sorted_baseline : Classification
sorted_baseline = value_of (classify_observation baseline) nothing

abbrev sorted_hearsay : Classification
sorted_hearsay = value_of (classify_observation hearsay) nothing

-- The unknown field of the baseline is held, the others pass.
baseline_status : sorted_baseline.status ≡ partially_accepted
unfolding running
baseline_status = refl

baseline_held : sorted_baseline.quarantined_fields ≡ "note" ∷ []
unfolding running
baseline_held = refl

-- A caller's own word is kept for review only.
hearsay_status : sorted_hearsay.status ≡ review_required
unfolding running
hearsay_status = refl

baseline-IsDistinct : IsDistinct (keys baseline.facts)
unfolding running
baseline-IsDistinct = (refl, (refl, (refl, (refl, (refl, tt)))))

hearsay-IsDistinct : IsDistinct (keys hearsay.facts)
unfolding running
hearsay-IsDistinct = (refl, (refl, tt))

classify-accepts_example :
    get "target" sorted_baseline.accepted_facts
    ≡ (if lets_through baseline then accepted_fact baseline.kind baseline.facts "target" else none)
unfolding running
classify-accepts_example =
    classify-accepts baseline sorted_baseline "target" baseline-IsDistinct refl

classify-partitions_example :
    contains "target" sorted_hearsay.quarantined_fields
    ≡ not (is_some (get "target" sorted_hearsay.accepted_facts))
unfolding running
classify-partitions_example =
    classify-partitions hearsay sorted_hearsay "target" hearsay-IsDistinct refl refl
