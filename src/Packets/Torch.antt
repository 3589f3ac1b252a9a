-- ===== src/Packets/Torch.antt =====
-- What the packet codec uses of torch, of `json` and of objects of other classes, as parameters.
use freethreaded_dataplane.Common.{ℕ, ◌*◌, ◌≡◌, Bool, true, Option, List, [], ◌∷◌, String, length}
use freethreaded_dataplane.Common.Int.{ℤ}
use freethreaded_dataplane.Common.Text.{same}
use freethreaded_dataplane.Common.Members.{member}
use freethreaded_dataplane.Python.{Value}

-- The keys of `DTYPE_BY_NAME`. A dtype is known by its name.
abbrev pub dtype_names : List String
dtype_names =
    "bool" ∷ "uint8" ∷ "int8" ∷ "int16" ∷ "int32" ∷ "int64" ∷ "float16" ∷ "bfloat16" ∷ "float32"
    ∷ "float64" ∷ []

-- `math.prod(shape)`
abbrev pub product : List ℕ → ℕ
product [] = 1
product (n ∷ ns) = n * product ns

pub record Torch (X : Type 0) : Type 0 where
  -- `isinstance(x, torch.Tensor)`
  pub is_tensor : X → Bool
  -- `str(x.layout)`; a dtype `d` is written `torch.d`.
  pub layout : X → String
  pub dtype : X → String
  pub shape : X → List ℕ
  -- `x.detach().to("cpu").clone(memory_format=torch.contiguous_format)`
  pub snapshot : X → X
  -- `x.reshape(-1).view(torch.uint8).numpy()` of a contiguous tensor.
  pub raw_bytes : X → List ℕ
  -- `torch.empty((), dtype=dtype).element_size()`
  pub element_size : String → ℕ
  -- `torch.empty(shape, dtype=dtype)`
  pub empty : String → List ℕ → X
  -- `torch.frombuffer(buffer, dtype=dtype, count=numel).reshape(shape).clone()`
  pub from_buffer : String → List ℕ → List ℕ → X
  -- `type(x)`, by its name.
  pub class_of : X → String
  -- `hash(x)` succeeds.
  pub is_hashable : X → Bool
  -- `x == y` for two objects as keys of one dictionary.
  pub same_object : X → X → Bool
  -- `repr(v)`
  pub repr : Value X → String

-- A tensor that the codec supports.
pub record IsDense {X : Type 0} (torch : Torch X) (x : X) : Type 0 where
  pub tensor : torch.is_tensor x ≡ true
  pub strided : same (torch.layout x) "torch.strided" ≡ true
  pub typed : member (torch.dtype x) dtype_names ≡ true

-- What torch documents: a snapshot is a tensor of the same type and shape, its bytes are as many as
-- its elements take, and the bytes with type and shape give it back; a tensor without elements is
-- given by its type and shape alone.
pub record IsTorch {X : Type 0} (torch : Torch X) : Type 0 where
  pub snapshot_tensor :
      (x : X) → torch.is_tensor x ≡ true → torch.is_tensor (torch.snapshot x) ≡ true
  pub snapshot_dtype : (x : X) → torch.dtype (torch.snapshot x) ≡ torch.dtype x
  pub snapshot_shape : (x : X) → torch.shape (torch.snapshot x) ≡ torch.shape x
  pub bytes_count :
      (x : X)
      → IsDense torch x
      → length (torch.raw_bytes (torch.snapshot x))
        ≡ product (torch.shape x) * torch.element_size (torch.dtype x)
  pub buffer_read :
      (x : X)
      → IsDense torch x
      → torch.from_buffer (torch.dtype x) (torch.shape x) (torch.raw_bytes (torch.snapshot x))
        ≡ torch.snapshot x
  pub empty_read :
      (x : X)
      → IsDense torch x
      → product (torch.shape x) ≡ 0
      → torch.empty (torch.dtype x) (torch.shape x) ≡ torch.snapshot x

-- The functions `json.dumps`, with the separators and the UTF-8 encoding that the codec uses, and
-- `json.loads` after the UTF-8 decoding, with none where either raises. That `dumps` raises on a
-- tree that is deeper than Python's recursion or on an integer of more digits than Python prints is
-- left out: the codec's limit on the depth and its integers of 64 bits stay below both. `float_of` is `float(z)`,
-- with none where it overflows.
pub record JsonText (X : Type 0) : Type 0 where
  pub dumps : Value X → List ℕ
  pub loads : List ℕ → Option (Value X)
  pub float_of : ℤ → Option ℕ
