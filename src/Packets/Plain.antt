-- ===== src/Packets/Plain.antt =====
-- The values that JSON can write and read back.
use freethreaded_dataplane.Common.{
  ◌≡◌, refl, Bool, true, false, ◌&&◌, some, List, [], ◌∷◌, ◌++◌, is_none, arith, ℕ, map,
}
use freethreaded_dataplane.Python.{
  Value, Values, Entries, null, bool, int, float, str, list, dict, nil, cons, end, entry, values,
  get_field,
}
use freethreaded_dataplane.Packets.Torch.{JsonText}
use freethreaded_dataplane.Packets.Encode.{is_finite, count}

-- Numbers that are finite, texts, lists, and dictionaries whose keys are texts, each once.
unfoldable mutual
  pub is_plain : {X : Type 0} → Value X → Bool
  is_plain null = true
  is_plain (bool b) = true
  is_plain (int z) = true
  is_plain (float bits) = is_finite bits
  is_plain (str s) = true
  is_plain (list vs) = all_plain vs
  is_plain (dict d) = plain_entries d
  is_plain _ = false

  pub all_plain : {X : Type 0} → Values X → Bool
  all_plain nil = true
  all_plain (cons v vs) = is_plain v && all_plain vs

  pub plain_entries : {X : Type 0} → Entries X → Bool
  plain_entries end = true
  plain_entries (entry (str k) v d) = is_none (get_field k d) && (is_plain v && plain_entries d)
  plain_entries (entry _ v d) = false

-- JSON gives such a value back.
pub record IsJsonText {X : Type 0} (json : JsonText X) : Type 0 where
  pub reads_back : (v : Value X) → is_plain v ≡ true → json.loads (json.dumps v) ≡ some v

module _ {X : Type 0} where
  pub all_plain-append :
      (vs : List (Value X)) (v : Value X)
      → all_plain (values vs) ≡ true
      → is_plain v ≡ true
      → all_plain (values (vs ++ (v ∷ []))) ≡ true
  unfolding is_plain
  all_plain-append [] v h e = ground arith
  all_plain-append (w ∷ vs) v h e = ground (arith, all_plain-append vs v)

module _ (X : Type 0) where
  pub all_plain-counts : (ns : List ℕ) → all_plain {X = X} (values (map count ns)) ≡ true
  unfolding is_plain
  all_plain-counts [] = refl
  all_plain-counts (n ∷ ns) = all_plain-counts ns
