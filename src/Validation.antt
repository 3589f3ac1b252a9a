-- ===== src/Validation.antt =====
-- nogil_data_plane/validation.py: the structural checks before ADD.
mod Tests
use freethreaded_dataplane.Common.{
  ◌≡◌, ◌↔◌, Bool, true, false, ◌≢◌, not, ◌||◌, none, List, [], ◌∷◌, String, arith, is_none,
  if◌then◌else◌,
}
use freethreaded_dataplane.Common.Text.{◌<>◌}
use freethreaded_dataplane.Errors.{Result, ok, exception, invalid_object, ◌>>◌, raise_if}
use freethreaded_dataplane.Python.{Value, Entries, dict, get_field}

-- `ABCROWN_BOUNDS_KEYS` and `ABCROWN_DOMAIN_DATA_KEYS`, sorted.
abbrev pub bounds_keys : List String
bounds_keys =
    "alphas" ∷ "betas" ∷ "c" ∷ "decision_info" ∷ "input_split_idx" ∷ "lAs" ∷ "lower_bounds"
    ∷ "split_history" ∷ "sub_domain_clip_decisions" ∷ "unstable_bounds" ∷ "upper_bounds" ∷ "x_Ls"
    ∷ "x_Us" ∷ []

abbrev pub domain_data_keys : List String
domain_data_keys = "depths" ∷ "history" ∷ "thresholds" ∷ []

-- `repr` of a list of plain words.
abbrev more_words : List String → String
more_words [] = "]"
more_words (w ∷ ws) = ", '" <> w <> "'" <> more_words ws

abbrev pub show_words : List String → String
show_words [] = "[]"
show_words (w ∷ ws) = "['" <> w <> "'" <> more_words ws

abbrev pub is_nonempty : List String → Bool
is_nonempty [] = false
is_nonempty (k ∷ ks) = true

module _ {X : Type 0} where
  -- `sorted(KEYS - d.keys())`, for sorted `KEYS`.
  unfoldable pub missing : List String → Entries X → List String
  missing [] d = []
  missing (k ∷ ks) d = if is_none (get_field k d) then k ∷ missing ks d else missing ks d

  -- The same of a value; it is only asked of dictionaries.
  abbrev pub missing_from : List String → Value X → List String
  missing_from keys (dict d) = missing keys d
  missing_from keys _ = []

  abbrev pub is_dict : Value X → Bool
  is_dict (dict d) = true
  is_dict _ = false

  unfoldable pub validate_mapping_add : Value X → Value X → Result (Unit {0})
  validate_mapping_add bounds domain_data =
      raise_if (not (is_dict bounds) || not (is_dict domain_data))
        (exception invalid_object "ADD bounds and domain_data must be dictionaries")

  unfoldable pub validate_alpha_beta_crown_add : Value X → Value X → Result (Unit {0})
  unfolding validate_mapping_add
  validate_alpha_beta_crown_add bounds domain_data = do
    validate_mapping_add bounds domain_data
    let missing_bounds = missing_from bounds_keys bounds
    let missing_data = missing_from domain_data_keys domain_data
    raise_if (is_nonempty missing_bounds || is_nonempty missing_data) (
        exception invalid_object (
          "ADD is missing keys: bounds="
          <> show_words missing_bounds
          <> ", domain_data="
          <> show_words missing_data))

  -- Every listed key is in the dictionary.
  abbrev pub HasKeys : List String → Entries X → Type 0
  HasKeys [] d = Unit {0}
  HasKeys (k ∷ ks) d = (get_field k d ≢ none) × HasKeys ks d

  missing-none : (ks : List String) (d : Entries X) → (missing ks d ≡ []) ↔ HasKeys ks d
  unfolding missing
  missing-none [] d = ground arith
  missing-none (k ∷ ks) d = ground (arith, missing-none ks d)

  -- A dictionary that holds every listed key.
  abbrev pub HasKeysIn : List String → Value X → Type 0
  HasKeysIn keys (dict d) = HasKeys keys d
  HasKeysIn keys _ = ⊥

  accepts_iff :
      (bounds domain_data : Entries X)
      → (validate_alpha_beta_crown_add (dict bounds) (dict domain_data) ≡ ok tt)
        ↔ ((missing bounds_keys bounds ≡ []) × (missing domain_data_keys domain_data ≡ []))
  unfolding validate_alpha_beta_crown_add
  accepts_iff bounds domain_data = ground arith

  -- The alpha-beta-CROWN profile accepts an ADD exactly when both arguments are dictionaries, the
  -- bounds hold all thirteen of their keys and the domain data all three of theirs.
  pub validate_iff :
      (bounds domain_data : Value X)
      → (validate_alpha_beta_crown_add bounds domain_data ≡ ok tt)
        ↔ (HasKeysIn bounds_keys bounds × HasKeysIn domain_data_keys domain_data)
  unfolding validate_alpha_beta_crown_add
  validate_iff (dict b) (dict d) =
      let m = accepts_iff b d in
      let p = missing-none bounds_keys b in
      let q = missing-none domain_data_keys d in
      (λ h. (p.0 (m.0 h).0, q.0 (m.0 h).1), λ h. m.1 (p.1 h.0, q.1 h.1))
  validate_iff (dict b) _ = (λ h. cc, λ h. absurd h.1)
  validate_iff _ _ = (λ h. cc, λ h. absurd h.0)
