-- ===== src/Casework/Ancestors/Ends.antt =====
-- The walk ends: its fuel covers every path of tasks.
use proofops_memoryguard.Base.{
  ℕ, zero, suc, ◌+◌, ◌<◌, String, true, false, Option, none, some, List, [], ◌∷◌, ◌≡◌, ◌≢◌, refl,
  sym, ◌∙◌, Dict, get, contains, contains-keys, is_some, keys, length, IsDistinct, Within,
  length-le_of_Within, sort_texts, arith, Bool-cases, inl, inr, eq_iff, ◌==◌,
}
use proofops_memoryguard.Errors.{Result, ok, err, recursion_error, ◌>>=◌}
use proofops_memoryguard.Casework.Models.{Task}
use proofops_memoryguard.Casework.Ancestors.{Walk, each, descend, walk, ancestors}

-- Not the exception of calls that run too deep.
abbrev Ends : {A : Type 0} → Result A → Type 0
Ends r = (m : String) → r ≢ err (recursion_error m)

bind-Ends :
    {A B : Type 0} (r : Result A) (f : A → Result B)
    → Ends r
    → ((a : A) → Ends (f a))
    → Ends (r >>= f)
bind-Ends (ok a) f h k = k a
bind-Ends (err e) f h k = λ m p. h m (cc p)

each-Ends :
    (visit : String → Walk → Result Walk)
    → ((p : String) (w : Walk) → Ends (visit p w))
    → (ps : List String) (w : Walk) → Ends (each visit ps w)
unfolding each
each-Ends visit h [] w = λ m p. cc p
each-Ends visit h (q ∷ qs) w =
    bind-Ends (visit q w) (each visit qs) (h q w) (λ w'. each-Ends visit h qs w')

descend-Ends :
    (visit : String → Walk → Result Walk) (key : String) (found : Option Task) (w : Walk)
    → (is_some found ≡ true → (p : String) (w' : Walk) → Ends (visit p w'))
    → Ends (descend visit key found w)
unfolding descend
descend-Ends visit key none w h = λ m p. cc p
descend-Ends visit key (some task) w h =
    bind-Ends (each visit (sort_texts task.depends_on) w) _
      (each-Ends visit (h refl) (sort_texts task.depends_on) w) (λ w' m p. cc p)

-- The tasks on the path are distinct tasks of the workspace.
record IsPath (tasks : Dict Task) (visiting : List String) : Type 0 where
  distinct : IsDistinct visiting
  known : Within visiting (keys tasks)

IsPath-cons :
    (tasks : Dict Task) (visiting : List String) (key : String)
    → contains key visiting ≡ false
    → is_some (get key tasks) ≡ true
    → IsPath tasks visiting
    → IsPath tasks (key ∷ visiting)
IsPath-cons tasks visiting key new found path = record {
  distinct = (new, path.distinct);
  known = λ s i.
      unfold contains in
      elim (Bool-cases (key == s)) [
        | inl e ↦ rw (sym ((eq_iff key s).0 e)) (contains-keys key tasks ∙ found)
        | inr e ↦ path.known s (ground (arith, i, e))
      ];
}

walk-Ends :
    (n : ℕ) (tasks : Dict Task) (visiting : List String) (key : String) (w : Walk)
    → IsPath tasks visiting
    → length (keys tasks) < length visiting + n
    → Ends (walk n tasks visiting key w)
unfolding walk
walk-Ends zero tasks visiting key w path deep =
    absurd (omega (arith, length-le_of_Within visiting (keys tasks) path.distinct path.known))
walk-Ends (suc n) tasks visiting key w path deep = elim (Bool-cases (contains key visiting)) [
  | inl e ↦ λ m p. ground (arith, rw e at p)
  | inr e ↦ elim (Bool-cases (contains key w.visited)) [
    | inl seen ↦ λ m p. ground (arith, rw (e, seen) at p)
    | inr new ↦
        rw (e, new)
          (descend-Ends (walk n tasks (key ∷ visiting)) key (get key tasks) w λ found p w'.
            walk-Ends n tasks (key ∷ visiting) p w' (IsPath-cons tasks visiting key e found path)
              (omega arith))
  ]
]

-- Whatever the tasks depend on, cycles and missing tasks included, the walk over the ancestors ends: it
-- never runs deeper than there are tasks.
pub ancestors-ends :
    (tasks : Dict Task) (id : String) (m : String) → ancestors tasks id ≢ err (recursion_error m)
unfolding ancestors contains
ancestors-ends tasks id =
    bind-Ends (walk _ tasks [] id _) _
      (walk-Ends (suc (suc (length (keys tasks)))) tasks [] id _
        (record { distinct = tt; known = λ s i. cc i }) (omega arith))
      (λ w m p. cc p)
