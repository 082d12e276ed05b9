-- ===== src/Python/Value.antt =====
-- A value of a dynamic type, as `Any` in the source, and `==` on such values.
use proofops_memoryguard.Base.{
  ℕ, suc, String, Bool, true, false, Option, none, some, List, [], ◌∷◌, ◌&&◌, ◌==◌, eqb,
  if◌then◌else◌, Dict, ◌≡◌, refl, ap,
}
use proofops_memoryguard.Python.Number.{
  ℤ, pos, Float, Datetime, int_as_float, float_eq, float_zero, eqb_ℤ,
}

-- A list or a dictionary holds values again, under types of their own.
mutual
  pub data Value : Type 0 where
    null : Value
    bool : Bool → Value
    int : ℤ → Value
    float : Float → Value
    str : String → Value
    time : Datetime → Value
    list : Items → Value
    dict : Fields → Value

  pub data Items : Type 0 where
    cons : Value → Items → Items
    nil : Items

  pub data Fields : Type 0 where
    field : String → Value → Fields → Fields
    end : Fields

-- the values of a list, and the entries of a dictionary in their order
unfoldable pub items : List Value → Items
items [] = nil
items (v ∷ vs) = cons v (items vs)

unfoldable pub fields : Dict Value → Fields
fields [] = end
fields ((k, v) ∷ d) = field k v (fields d)

-- the dictionary that the entries make
abbrev pub unfields : Fields → Dict Value
unfields end = []
unfields (field k v r) = (k, v) ∷ unfields r

pub unfields-fields : (d : Dict Value) → unfields (fields d) ≡ d
unfolding fields
unfields-fields [] = refl
unfields-fields ((k, v) ∷ d) = ap (λ r. (k, v) ∷ r) (unfields-fields d)

unfoldable pub string_items : List String → Items
string_items [] = nil
string_items (x ∷ xs) = cons (str x) (string_items xs)

abbrev pub strings : List String → Value
strings xs = list (string_items xs)

-- `str(x) if x else None`
abbrev pub optional_str : Option String → Value
optional_str none = null
optional_str (some s) = str s

-- The number that a value is, if it is one: `True` is 1.
unfoldable pub numeric : Value → Option Float
numeric (bool true) = some (int_as_float (pos 1))
numeric (bool false) = some float_zero
numeric (int z) = some (int_as_float z)
numeric (float f) = some f
numeric v = none

unfoldable pub numeric_eq : Option Float → Option Float → Bool
numeric_eq (some a) (some b) = float_eq a b
numeric_eq _ _ = false

unfoldable pub length_fields : Fields → ℕ
length_fields end = 0
length_fields (field k v r) = suc (length_fields r)

unfoldable pub field? : String → Fields → Option Value
field? k end = none
field? k (field j v r) = if j == k then some v else field? k r

-- the same instant, and both naive or both aware
abbrev time_eq : Datetime → Datetime → Bool
time_eq a b = eqb a.instant b.instant && elim a.zone [
  | none ↦ elim b.zone [ none ↦ true | some z ↦ false ]
  | some y ↦ elim b.zone [ none ↦ false | some z ↦ true ]
]

unfoldable mutual
  unfolding numeric numeric_eq length_fields field?

  -- `v == w`
  pub value_eq : Value → Value → Bool
  value_eq null null = true
  value_eq (str s) (str t) = s == t
  value_eq (time a) (time b) = time_eq a b
  value_eq (list xs) (list ys) = items_eq xs ys
  value_eq (dict d) (dict e) = eqb (length_fields d) (length_fields e) && fields_eq d e
  value_eq (bool a) w = numeric_eq (numeric (bool a)) (numeric w)
  value_eq (int z) w = numeric_eq (numeric (int z)) (numeric w)
  value_eq (float f) w = numeric_eq (numeric (float f)) (numeric w)
  value_eq _ _ = false

  pub items_eq : Items → Items → Bool
  items_eq nil nil = true
  items_eq (cons v vs) (cons w ws) = value_eq v w && items_eq vs ws
  items_eq _ _ = false

  -- every field of the first has an equal one in the second
  pub fields_eq : Fields → Fields → Bool
  fields_eq end e = true
  fields_eq (field k v r) e =
      elim (field? k e) [ none ↦ false | some w ↦ value_eq v w ] && fields_eq r e

-- `if v:`
unfoldable pub truthy : Value → Bool
truthy null = false
truthy (bool b) = b
truthy (int z) = if eqb_ℤ z (pos 0) then false else true
truthy (float f) = if float_eq f float_zero then false else true
truthy (str s) = if s == "" then false else true
truthy (time d) = true
truthy (list nil) = false
truthy (list (cons v r)) = true
truthy (dict end) = false
truthy (dict (field k v r)) = true
