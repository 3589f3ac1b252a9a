-- ===== src/Packets/Keys.antt =====
-- Keys of a Python dictionary: when two are the same, and adding an item.
use freethreaded_dataplane.Common.{
  ℕ, suc, ◌-◌, ◌^◌, ◌/◌, Bool, true, false, ◌&&◌, ◌||◌, ◌==◌, if◌then◌else◌,
}
use freethreaded_dataplane.Common.Int.{ℤ, pos, negsuc, eq_ℤ}
use freethreaded_dataplane.Common.Text.{same}
use freethreaded_dataplane.Python.{
  Value, Values, Entries, null, bool, int, float, str, bytes, tuple, object, nil, cons, end, entry,
  float_equals,
}
use freethreaded_dataplane.Framing.Header.{same_bytes}
use freethreaded_dataplane.Packets.Torch.{Torch}

-- `float == int`
unfoldable pub float_is : ℕ → ℤ → Bool
unfolding float_equals
float_is bits (pos n) = float_equals bits n
float_is bits (negsuc n) = bits / 2 ^ 63 == 1 && float_equals (bits - 2 ^ 63) (suc n)

-- Two finite floats are equal if their bits are, or both are zeros.
unfoldable pub same_float : ℕ → ℕ → Bool
same_float b c = b == c || ((b == 0 || b == 2 ^ 63) && (c == 0 || c == 2 ^ 63))

abbrev pub int_of : Bool → ℤ
int_of true = pos 1
int_of false = pos 0

module _ {X : Type 0} (torch : Torch X) where
  -- `k == j` for hashable keys. Lists and dictionaries are no keys; two exceptions are the same only
  -- if they are one object, and no dictionary that is built here is given one twice.
  unfoldable mutual
    unfolding same same_bytes float_is same_float

    pub same_key : Value X → Value X → Bool
    same_key null null = true
    same_key (bool b) (bool c) = eq_ℤ (int_of b) (int_of c)
    same_key (bool b) (int z) = eq_ℤ (int_of b) z
    same_key (bool b) (float y) = float_is y (int_of b)
    same_key (int z) (bool b) = eq_ℤ z (int_of b)
    same_key (int z) (int y) = eq_ℤ z y
    same_key (int z) (float y) = float_is y z
    same_key (float x) (bool b) = float_is x (int_of b)
    same_key (float x) (int z) = float_is x z
    same_key (float x) (float y) = same_float x y
    same_key (str s) (str t) = same s t
    same_key (bytes xs) (bytes ys) = same_bytes xs ys
    same_key (tuple vs) (tuple ws) = same_keys vs ws
    same_key (object x) (object y) = torch.same_object x y
    same_key _ _ = false

    pub same_keys : Values X → Values X → Bool
    same_keys nil nil = true
    same_keys (cons v vs) (cons w ws) = same_key v w && same_keys vs ws
    same_keys _ _ = false

  -- `key in d`
  unfoldable pub has_key : Value X → Entries X → Bool
  unfolding same_key
  has_key k end = false
  has_key k (entry j v d) = same_key k j || has_key k d

module _ {X : Type 0} where
  -- `d[key] = value` for a key that is not there.
  unfoldable pub append : Entries X → Value X → Value X → Entries X
  append end k v = entry k v end
  append (entry j w d) k v = entry j w (append d k v)

module _ {X : Type 0} (torch : Torch X) where
  -- `d[key] = value`, which keeps the first of two equal keys.
  unfoldable pub put : Entries X → Value X → Value X → Entries X
  unfolding same_key
  put end k v = entry k v end
  put (entry j w d) k v = if same_key torch k j then entry j v d else entry j w (put d k v)
