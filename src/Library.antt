-- ===== src/Library.antt =====
-- What the actors call and the sources do not define: the domain list (the BatchedDomainList of
-- alpha-beta-CROWN, of type `D`), objects of other classes (`X`), `pickle.loads` and `repr`.
use freethreaded_dataplane.Common.{
  ℕ, ◌+◌, ◌<◌, ◌≤◌, ◌≡◌, Bool, true, false, ◌&&◌, Option, List, String,
}
use freethreaded_dataplane.Errors.{Result, ok}
use freethreaded_dataplane.Python.{Value, Values, nil, cons, list, tuple, dict, object}

-- A method that changes the list gives its result or exception, and the list after the call, also
-- after one that raises. The queries, which may raise, leave the list alone, and `len`, which is
-- `size`, does not raise.
pub record Library (X D : Type 0) : Type 0 where
  pub size : D → ℕ
  -- `pick_out(k, "cpu")`
  pub pick_out : ℕ → D → Result (Value X) × D
  -- `add(bounds, domain_data, check_infeasibility)`
  pub add : Value X → Value X → Bool → D → Result (Value X) × D
  pub sort : D → Result (Unit {0}) × D
  -- `get_min_domain(num, False)`
  pub get_min_domain : ℕ → D → Result (List (Value X))
  -- `domains[index]`
  pub get_item : ℕ → D → Result (Value X)
  -- `pickle.loads(bytes)`
  pub load : List ℕ → Result D
  -- `getattr(x, name)`, with none for an `AttributeError`.
  pub attribute : X → String → Option (Value X)
  pub is_hashable : X → Bool
  -- `repr(s)` of a text.
  pub repr : String → String

-- What a domain list promises of its length: a pick of at most what is there succeeds and takes
-- out that many, and sorting keeps the number.
pub record IsDomainList {X D : Type 0} (lib : Library X D) : Type 0 where
  pub pick_takes :
      (k : ℕ) (d : D)
      → 0 < k
      → k ≤ lib.size d
      → (v : Value X) × (e : D) × (lib.pick_out k d ≡ (ok v, e)) × (lib.size e + k ≡ lib.size d)
  pub sort_keeps : (d : D) → lib.size (lib.sort d).1 ≡ lib.size d

unfoldable mutual
  -- `hash(v)` succeeds.
  pub hashable : {X : Type 0} → (X → Bool) → Value X → Bool
  hashable h (list vs) = false
  hashable h (dict es) = false
  hashable h (tuple vs) = all_hashable h vs
  hashable h (object x) = h x
  hashable h _ = true

  pub all_hashable : {X : Type 0} → (X → Bool) → Values X → Bool
  all_hashable h nil = true
  all_hashable h (cons v vs) = hashable h v && all_hashable h vs
