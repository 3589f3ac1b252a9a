-- ===== src/Packets/Samples.antt =====
-- Objects for the tests: tensors, and intervals, for which there is an adapter.
use freethreaded_dataplane.Common.{
  ℕ, zero, suc, ◌*◌, ◌≡◌, refl, sym, ap, Bool, true, false, List, [], ◌∷◌, String, length, arith,
  if◌then◌else◌,
}
use freethreaded_dataplane.Common.Int.{pos}
use freethreaded_dataplane.Common.Text.{same}
use freethreaded_dataplane.Errors.{Result, ok, err, exception, key_error}
use freethreaded_dataplane.Python.{
  Value, null, bool, int, float, str, bytes, placeholder, list, tuple, dict, object, end, entry,
  fields, get_or_null, values,
}
use freethreaded_dataplane.Types.Limits.{default_limits}
use freethreaded_dataplane.Packets.Torch.{Torch, product, IsTorch}
use freethreaded_dataplane.Packets.Registry.{
  TypeAdapter, PacketCodec, register_all, register_adapter, init,
}
use freethreaded_dataplane.Common.Dict.{lookup, insert}

-- A tensor has a type, a shape and bytes, and may be attached to a graph.
pub data Thing : Type 0 where
  tensor : String → List ℕ → List ℕ → Bool → Thing
  interval : ℕ → ℕ → Thing

-- As many bytes as the elements take.
unfoldable pub fit : ℕ → List ℕ → List ℕ
fit zero bs = []
fit (suc n) [] = 0 ∷ fit n []
fit (suc n) (b ∷ bs) = b ∷ fit n bs

length-fit : (n : ℕ) (bs : List ℕ) → length (fit n bs) ≡ n
unfolding fit
length-fit zero bs = refl
length-fit (suc n) [] = ap suc (length-fit n [])
length-fit (suc n) (b ∷ bs) = ap suc (length-fit n bs)

abbrev pub width : String → ℕ
width dtype = if same dtype "float32" then 4 else 1

abbrev pub is_tensor : Thing → Bool
is_tensor (tensor d s b attached) = true
is_tensor (interval lo hi) = false

abbrev pub dtype : Thing → String
dtype (tensor d s b attached) = d
dtype (interval lo hi) = ""

abbrev pub shape : Thing → List ℕ
shape (tensor d s b attached) = s
shape (interval lo hi) = []

abbrev pub detached : Thing → Thing
detached (tensor d s b attached) = tensor d s (fit (product s * width d) b) false
detached (interval lo hi) = interval lo hi

abbrev pub raw : Thing → List ℕ
raw (tensor d s b attached) = b
raw (interval lo hi) = []

abbrev pub class_name : Thing → String
class_name (tensor d s b attached) = "Tensor"
class_name (interval lo hi) = "Interval"

abbrev pub things : Torch Thing
things = record {
  is_tensor = is_tensor;
  layout = λ x. "torch.strided";
  dtype = dtype;
  shape = shape;
  snapshot = detached;
  raw_bytes = raw;
  element_size = width;
  empty = λ d s. tensor d s [] false;
  from_buffer = λ d s b. tensor d s b false;
  class_of = class_name;
  is_hashable = λ x. true;
  same_object = λ x y. false;
  repr = λ v. "value";
}

no_bytes : (n : ℕ) (bs : List ℕ) → n ≡ 0 → fit n bs ≡ []
unfolding fit
no_bytes zero bs h = refl
no_bytes (suc n) bs h = absurd (omega arith)

no_elements : (n w : ℕ) → n ≡ 0 → n * w ≡ 0
no_elements n w h = grind arith

snapshot_tensor : (x : Thing) → is_tensor x ≡ true → is_tensor (detached x) ≡ true
snapshot_tensor (tensor d s b attached) h = refl
snapshot_tensor (interval lo hi) h = h

snapshot_dtype : (x : Thing) → dtype (detached x) ≡ dtype x
snapshot_dtype (tensor d s b attached) = refl
snapshot_dtype (interval lo hi) = refl

snapshot_shape : (x : Thing) → shape (detached x) ≡ shape x
snapshot_shape (tensor d s b attached) = refl
snapshot_shape (interval lo hi) = refl

bytes_count :
    (x : Thing)
    → is_tensor x ≡ true
    → length (raw (detached x)) ≡ product (shape x) * width (dtype x)
bytes_count (tensor d s b attached) h = length-fit (product s * width d) b
bytes_count (interval lo hi) h = cc

buffer_read :
    (x : Thing)
    → is_tensor x ≡ true
    → tensor (dtype x) (shape x) (raw (detached x)) false ≡ detached x
buffer_read (tensor d s b attached) h = refl
buffer_read (interval lo hi) h = cc

empty_read :
    (x : Thing)
    → is_tensor x ≡ true
    → product (shape x) ≡ 0
    → tensor (dtype x) (shape x) [] false ≡ detached x
empty_read (tensor d s b attached) h zeros =
    ap (λ b. tensor d s b false)
      (sym (no_bytes (product s * width d) b (no_elements (product s) (width d) zeros)))
empty_read (interval lo hi) h zeros = cc

pub things-IsTorch : IsTorch things
things-IsTorch = record {
  snapshot_tensor = snapshot_tensor;
  snapshot_dtype = snapshot_dtype;
  snapshot_shape = snapshot_shape;
  bytes_count = λ x h. bytes_count x h.tensor;
  buffer_read = λ x h. buffer_read x h.tensor;
  empty_read = λ x h zeros. empty_read x h.tensor zeros;
}

abbrev ends : Thing → Result (Value Thing)
ends (interval lo hi) = ok (dict (fields (("lo", int (pos lo)) ∷ ("hi", int (pos hi)) ∷ [])))
ends (tensor d s b attached) = err (exception key_error "no interval")

abbrev between : Value Thing → Value Thing → Result (Value Thing)
between (int (pos lo)) (int (pos hi)) = ok (object (interval lo hi))
between _ _ = err (exception key_error "no interval")

abbrev pub interval_adapter : TypeAdapter Thing
interval_adapter = record {
  tag = "interval";
  python_type = "Interval";
  encode_fields = ends;
  decode_fields = λ d. between (get_or_null "lo" d) (get_or_null "hi" d);
}

abbrev pub thing_codec : PacketCodec Thing
thing_codec = record {
  limits = default_limits;
  by_tag = ("interval", interval_adapter) ∷ [];
  by_type = ("Interval", interval_adapter) ∷ [];
}

pub thing_codec-init : init (λ s. s) default_limits (interval_adapter ∷ []) ≡ ok thing_codec
unfolding init register_all register_adapter lookup insert
thing_codec-init = refl

-- Bounds of a domain: a tensor that is attached to a graph, an interval, and values of other kinds.
abbrev pub weights : Thing
weights = tensor "float32" (2 ∷ []) (0 ∷ 0 ∷ 128 ∷ 63 ∷ 0 ∷ 0 ∷ 0 ∷ 64 ∷ []) true

abbrev pub bounds_value : Thing → Value Thing
bounds_value x = dict (
    entry (str "weights") (object x) (
      entry (int (pos 3)) (tuple (values (object (interval 1 2) ∷ bytes (7 ∷ 8 ∷ []) ∷ null ∷ [])))
        (entry (str "error")
          (list (values (placeholder "boom" ∷ bool true ∷ float 0x3ff8000000000000 ∷ []))) end)))
