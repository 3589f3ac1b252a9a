-- ===== src/Samples.antt =====
-- A domain list for the tests: numbers, picked from the front. An ADD puts one number at the front
-- and answers with it; a domain data dictionary that says "poison" makes it raise.
use freethreaded_dataplane.Common.{
  ℕ, ◌+◌, ◌≤◌, ◌<◌, ◌≡◌, refl, true, Option, none, some, List, [], ◌∷◌, arith, length, take, drop,
  get_elem?, length-drop,
}
use freethreaded_dataplane.Common.Int.{pos}
use freethreaded_dataplane.Errors.{Result, ok, err, exception, runtime_error, index_error}
use freethreaded_dataplane.Python.{
  Value, Values, nil, cons, null, int, list, dict, fields, get_field,
}
use freethreaded_dataplane.Library.{Library, IsDomainList}

abbrev pub numbers : List ℕ → Values ℕ
numbers [] = nil
numbers (n ∷ ns) = cons (int (pos n)) (numbers ns)

abbrev pub add_one : Value ℕ → List ℕ → Result (Value ℕ) × List ℕ
add_one (dict d) ns = elim (get_field "poison" d) [
  | none ↦ (ok (int (pos 42)), 42 ∷ ns)
  | some v ↦ (err (exception runtime_error "poisoned"), ns)
]
add_one _ ns = (err (exception runtime_error "no data"), ns)

-- A domain is queried as a record of its six fields.
abbrev pub described : ℕ → Value ℕ
described n = dict (
    fields (
      ("lower_bound", int (pos n))
      ∷ ("upper_bound", null)
      ∷ ("threshold", null)
      ∷ ("history", null)
      ∷ ("split_history", null)
      ∷ ("depth", int (pos 0))
      ∷ []))

abbrev pub item_of : Option ℕ → Result (Value ℕ)
item_of none = err (exception index_error "list index out of range")
item_of (some n) = ok (described n)

abbrev pub shelf : Library ℕ (List ℕ)
shelf = record {
  size = length;
  pick_out = λ k ns. (ok (dict (fields (("picked", list (numbers (take k ns))) ∷ []))), drop k ns);
  add = λ bounds domain_data check ns. add_one domain_data ns;
  sort = λ ns. (ok tt, ns);
  get_min_domain = λ k ns. ok [];
  get_item = λ i ns. item_of (get_elem? ns i);
  load = λ payload. ok payload;
  attribute = λ x name. none;
  is_hashable = λ x. true;
  repr = λ s. s;
}

shelf_pick :
    (k : ℕ) (d : List ℕ)
    → 0 < k
    → k ≤ length d
    → (v : Value ℕ) × (e : List ℕ) × (shelf.pick_out k d ≡ (ok v, e)) × (length e + k ≡ length d)
shelf_pick k d p h = (_, drop k d, refl, omega (arith, length-drop k d))

pub shelf-IsDomainList : IsDomainList shelf
shelf-IsDomainList = record { pick_takes = shelf_pick; sort_keeps = λ d. refl }
