-- ===== src/Python/Text.antt =====
-- The character classes of the program's anchored patterns. `fullmatch` reads the whole text, so a
-- trailing newline does not match.
use Prim.Native.Char.{code}
use proofops_memoryguard.Base.{
  ℕ, String, Bool, false, List, [], ◌∷◌, ◌&&◌, ◌||◌, leb, eqb, length, all_by,
}

-- the code points of a text
unfoldable pub codes : String → List ℕ
codes String.[] = []
codes (String.◌∷◌ c s) = code c ∷ codes s

abbrev in_range : ℕ → ℕ → ℕ → Bool
in_range lo hi c = leb lo c && leb c hi

unfoldable pub is_letter : ℕ → Bool
is_letter c = in_range b'A' b'Z' c || in_range b'a' b'z' c

unfoldable pub is_digit : ℕ → Bool
is_digit c = in_range b'0' b'9' c

unfoldable pub is_hex : ℕ → Bool
is_hex c = is_digit c || in_range b'A' b'F' c || in_range b'a' b'f' c

unfoldable pub is_lower_hex : ℕ → Bool
is_lower_hex c = is_digit c || in_range b'a' b'f' c

-- `[A-Za-z0-9]`
unfoldable pub is_alphanumeric : ℕ → Bool
is_alphanumeric c = is_letter c || is_digit c

-- `[A-Za-z0-9_]`
unfoldable pub is_word : ℕ → Bool
is_word c = is_alphanumeric c || eqb c b'_'

-- `[A-Za-z0-9._:-]`
unfoldable pub is_identifier_part : ℕ → Bool
is_identifier_part c = is_word c || eqb c b'.' || eqb c b':' || eqb c b'-'

-- `^F R{lo,hi}$` for a first class and a class of the rest
unfoldable pub matches_word : (ℕ → Bool) → (ℕ → Bool) → ℕ → ℕ → List ℕ → Bool
matches_word first rest lo hi [] = false
matches_word first rest lo hi (c ∷ cs) =
    first c && all_by rest cs && leb lo (length cs) && leb (length cs) hi

-- `^0x[a-fA-F0-9]{40}$`
unfoldable pub matches_address : List ℕ → Bool
matches_address (z ∷ x ∷ cs) = eqb z b'0' && eqb x b'x' && all_by is_hex cs && eqb (length cs) 40
matches_address _ = false
