-- ===== src/Python.antt =====
-- The values that a remote call carries: the built-in Python types of the packets, and objects of
-- classes that the sources do not define (tensors, registered dataclasses), of a type `X`.
use Prim.Native.Nat.{ℕ, ◌+◌, ◌*◌, ◌/◌, ◌%◌, ◌^◌}
use text.Mathlib.Text.{◌==◌ as text_eq}
use freethreaded_dataplane.Common.{
  ◌≡◌, refl, Bool, true, false, not, ◌&&◌, ◌||◌, ◌==◌, Option, none, some, List, [], ◌∷◌, String,
  if◌then◌else◌,
}
use freethreaded_dataplane.Common.Int.{ℤ, pos, eq_ℤ}

mutual
  pub data Value (X : Type 0) : Type 0 where
    null : Value X
    bool : Bool → Value X
    int : ℤ → Value X
    -- The 64 bits of a float.
    float : ℕ → Value X
    str : String → Value X
    bytes : List ℕ → Value X
    -- A `ValueError` instance, by its message.
    placeholder : String → Value X
    list : Values X → Value X
    tuple : Values X → Value X
    dict : Entries X → Value X
    object : X → Value X

  pub data Values (X : Type 0) : Type 0 where
    nil : Values X
    cons : Value X → Values X → Values X

  -- The items of a dictionary, in insertion order.
  pub data Entries (X : Type 0) : Type 0 where
    end : Entries X
    entry : Value X → Value X → Entries X → Entries X

module _ {X : Type 0} where
  abbrev pub values : List (Value X) → Values X
  values [] = nil
  values (v ∷ vs) = cons v (values vs)

  -- A dictionary display with literal keys, followed by more items.
  abbrev pub fields_then : List (String × Value X) → Entries X → Entries X
  fields_then [] rest = rest
  fields_then ((k, v) ∷ fs) rest = entry (str k) v (fields_then fs rest)

  abbrev pub fields : List (String × Value X) → Entries X
  fields fs = fields_then fs end

  abbrev pub is_key : String → Value X → Bool
  is_key k (str s) = text_eq k s
  is_key k _ = false

  -- `d.get(k)` for a text `k`; `none` where the key is missing.
  abbrev pub get_field : String → Entries X → Option (Value X)
  get_field k end = none
  get_field k (entry j v d) = if is_key k j then some v else get_field k d

  -- `d.get(k)`, with Python's `None` for a missing key.
  abbrev pub get_or_null : String → Entries X → Value X
  get_or_null k d = elim (get_field k d) [ none ↦ null | some v ↦ v ]

  -- A text or `None`.
  abbrev pub optional_text : Option String → Value X
  optional_text none = null
  optional_text (some s) = str s

-- `x == n` of a float by its bits, sign, exponent and mantissa, and an integer `n` from zero up.
unfoldable pub float_equals : ℕ → ℕ → Bool
float_equals bits n =
    let exponent = bits / 2 ^ 52 % 2048 in
    let mantissa = bits % 2 ^ 52 in
    let scaled = if exponent == 0 then mantissa * 2 else (2 ^ 52 + mantissa) * 2 ^ exponent in
    not (exponent == 2047) && scaled == n * 2 ^ 1075 && (bits / 2 ^ 63 == 0 || n == 0)

-- `v == n`: Python compares numbers across types.
unfoldable pub equals_nat : {X : Type 0} → Value X → ℕ → Bool
equals_nat (int z) n = eq_ℤ z (pos n)
equals_nat (bool true) n = n == 1
equals_nat (bool false) n = n == 0
equals_nat (float bits) n = float_equals bits n
equals_nat _ n = false

float_equals_test :
    (float_equals 0x4008000000000000 3 ≡ true)
    × (float_equals 0x3ff0000000000000 1 ≡ true)
    × (float_equals 0x8000000000000000 0 ≡ true)
    × (float_equals 0x3ff8000000000000 1 ≡ false)
unfolding float_equals
float_equals_test = (refl, refl, refl, refl)
