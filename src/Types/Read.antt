-- ===== src/Types/Read.antt =====
-- The type tests that nogil_data_plane/types.py makes on decoded values, and its `ValueError`s.
use freethreaded_dataplane.Common.{Bool, Option, none, some, String}
use freethreaded_dataplane.Common.Int.{ℤ}
use freethreaded_dataplane.Errors.{Exception, Result, err, exception, value_error, or_raise}
use freethreaded_dataplane.Python.{Value, null, bool, int, str}

abbrev pub invalid : String → Exception
invalid = exception value_error

module _ {X : Type 0} where
  -- `type(v) is bool`
  abbrev pub as_bool : Value X → Option Bool
  as_bool (bool b) = some b
  as_bool _ = none

  -- `type(v) is int`, which a `bool` fails.
  abbrev pub as_int : Value X → Option ℤ
  as_int (int n) = some n
  as_int _ = none

  -- `isinstance(v, str)`
  abbrev pub as_str : Value X → Option String
  as_str (str s) = some s
  as_str _ = none

  -- `v is None or isinstance(v, str)`
  abbrev pub as_optional_text : Value X → Option (Option String)
  as_optional_text null = some none
  as_optional_text (str s) = some (some s)
  as_optional_text _ = none

  -- `value[key]` at a required type: a missing key and a wrong type raise the same exception.
  abbrev pub required :
      {A : Type 0} → (Value X → Option A) → Option (Value X) → Exception → Result A
  required read none e = err e
  required read (some v) e = or_raise (read v) e
