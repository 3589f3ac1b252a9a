-- ===== src/Validation/Tests.antt =====
-- The ADD checks of nogil_data_plane/validation.py at concrete arguments.
use freethreaded_dataplane.Common.{ℕ, ◌≡◌, refl, ◌↔◌, List, [], ◌∷◌, String}
use freethreaded_dataplane.Errors.{ok, err, exception, invalid_object}
use freethreaded_dataplane.Python.{Value, dict, null, fields}
use freethreaded_dataplane.Validation.{
  HasKeysIn, bounds_keys, domain_data_keys, missing, validate_alpha_beta_crown_add, validate_iff,
}

abbrev nulls : List String → List (String × Value ℕ)
nulls [] = []
nulls (k ∷ ks) = (k, null) ∷ nulls ks

abbrev full_bounds : Value ℕ
full_bounds = dict (fields (nulls bounds_keys))

abbrev thin_data : Value ℕ
thin_data = dict (fields (nulls ("depths" ∷ [])))

validate_iff_example :
    (validate_alpha_beta_crown_add full_bounds thin_data ≡ ok tt)
    ↔ (HasKeysIn bounds_keys full_bounds × HasKeysIn domain_data_keys thin_data)
validate_iff_example = validate_iff full_bounds thin_data

names_missing :
    validate_alpha_beta_crown_add full_bounds thin_data
    ≡ err (
        exception invalid_object
          "ADD is missing keys: bounds=[], domain_data=['history', 'thresholds']")
unfolding validate_alpha_beta_crown_add missing
names_missing = refl
