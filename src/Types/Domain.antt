-- ===== src/Types/Domain.antt =====
-- `DomainRecord` of nogil_data_plane/types.py.
use freethreaded_dataplane.Common.{Option, none, [], ◌∷◌, String}
use freethreaded_dataplane.Errors.{Result, ok, ◌>>=◌, or_raise}
use freethreaded_dataplane.Python.{Value, Entries, dict, object, fields, get_field}
use freethreaded_dataplane.Types.Read.{invalid}

pub record DomainRecord (X : Type 0) : Type 0 where
  pub lower_bound : Value X
  pub upper_bound : Value X
  pub threshold : Value X
  pub history : Value X
  pub split_history : Value X
  pub depth : Value X

module _ {X : Type 0} where
  -- The items of a dictionary, the attributes of an object; a built-in value of another class has
  -- none of the names that are asked for.
  abbrev pub getter : (X → String → Option (Value X)) → Value X → String → Option (Value X)
  getter attribute (dict d) name = get_field name d
  getter attribute (object x) name = attribute x name
  getter attribute _ name = none

  unfoldable pub from_value : (X → String → Option (Value X)) → Value X → Result (DomainRecord X)
  from_value attribute value = do
    let malformed = invalid "invalid domain query record"
    lower ← or_raise (getter attribute value "lower_bound") malformed
    upper ← or_raise (getter attribute value "upper_bound") malformed
    threshold ← or_raise (getter attribute value "threshold") malformed
    history ← or_raise (getter attribute value "history") malformed
    split_history ← or_raise (getter attribute value "split_history") malformed
    depth ← or_raise (getter attribute value "depth") malformed
    ok (record {
      lower_bound = lower;
      upper_bound = upper;
      threshold = threshold;
      history = history;
      split_history = split_history;
      depth = depth;
    })

  unfoldable pub to_dict : DomainRecord X → Entries X
  to_dict r = fields (
      ("lower_bound", r.lower_bound)
      ∷ ("upper_bound", r.upper_bound)
      ∷ ("threshold", r.threshold)
      ∷ ("history", r.history)
      ∷ ("split_history", r.split_history)
      ∷ ("depth", r.depth)
      ∷ [])
