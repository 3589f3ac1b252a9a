-- ===== src/Packets/Spans.antt =====
-- The descriptors of raw buffers that `decode` accepts, one at a time.
use freethreaded_dataplane.Common.{
  ℕ, ◌+◌, ◌*◌, ◌≡◌, refl, sym, ap, ◌∙◌, Bool, false, not, ◌||◌, some, List, [], ◌∷◌, ◌++◌, String,
  length, take, drop, ltb, ◌==◌, arith, if◌then◌else◌, Bool-cases, inl, inr,
}
use freethreaded_dataplane.Errors
use freethreaded_dataplane.Errors.{Exception, Result, ok, err, exception, type_error}
use freethreaded_dataplane.Exec.{
  Action, gets, modify, raise_if, or_raise, ◌>>=◌, guard_inv, found_inv,
}
use freethreaded_dataplane.Common.Int.{pos}
use freethreaded_dataplane.Python.{
  Value, Values, Entries, int, bytes, list, dict, object, get_or_null,
}
use freethreaded_dataplane.Library.{hashable}
use freethreaded_dataplane.Actor.Methods.{is_text}
use freethreaded_dataplane.Facade.Session.{as_dict}
use freethreaded_dataplane.Packets.Torch.{Torch, product}
use freethreaded_dataplane.Packets.Registry.{PacketCodec, max_tensor_rank, max_tensor_elements}
use freethreaded_dataplane.Packets.Encode.{invalid}
use freethreaded_dataplane.Packets.Descriptors.{
  Reading, as_count, as_list, as_shape, size, descriptor_kind, is_dtype, dtype_of, read_bytes,
  read_tensor, read_descriptor,
}

-- Where none of the five faults is there, the third is not.
no_gap : (a b c d : Bool) (x y : ℕ) → not a || not b || not (x == y) || c || d ≡ false → x ≡ y
no_gap a b c d x y h = ground arith

module _ {X : Type 0} where
  -- A descriptor of `n` bytes from an offset on.
  abbrev pub Spans : Value X → ℕ → ℕ → Type 0
  Spans desc offset n =
      (d : Entries X) × (desc ≡ dict d)
      × (get_or_null "offset" d ≡ int (pos offset))
      × (get_or_null "nbytes" d ≡ int (pos n))

  as_count_inv : (v : Value X) (n : ℕ) → as_count v ≡ some n → v ≡ int (pos n)
  as_count_inv (int (pos m)) n h = ground arith
  as_count_inv _ n h = cc

  pub as_dict_inv : (v : Value X) (d : Entries X) → as_dict v ≡ some d → v ≡ dict d
  as_dict_inv (dict e) d h = ground arith
  as_dict_inv _ d h = cc

  pub as_list_inv : (v : Value X) (vs : Values X) → as_list v ≡ some vs → v ≡ list vs
  as_list_inv (list ws) vs h = ground arith
  as_list_inv _ vs h = cc

  -- What a reader of the fields of a descriptor found and did.
  abbrev Read : Entries X → Reading X → Reading X → Type 0
  Read d s r =
      (n : ℕ) × (get_or_null "offset" d ≡ int (pos s.previous_end))
      × (get_or_null "nbytes" d ≡ int (pos n))
      × (r.previous_end ≡ s.previous_end + n)

  -- The last step of both readers.
  Read-end :
      (d : Entries X) (s r : Reading X) (offset n : ℕ) (b : Value X) (wrong : Bool) (e : Exception)
      → as_count (get_or_null "offset" d) ≡ some offset
      → as_count (get_or_null "nbytes" d) ≡ some n
      → (wrong ≡ false → offset ≡ s.previous_end)
      → (raise_if wrong e >>= λ u.
            modify (λ r. record { previous_end = offset + n; buffers = r.buffers ++ (b ∷ []) }))
          s
        ≡ (ok tt, r)
      → Read d s r
  Read-end d s r offset n b wrong e at has next h =
      let written : Reading X → Reading X =
        λ r. record { previous_end = offset + n; buffers = r.buffers ++ (b ∷ []) } in
      let (right, h') = guard_inv wrong e (λ u. modify written) h in
      let from_end = next right in
      let same_state : ◌≡◌ {A = Reading X} (written s) r = cc in
      (
        n,
        as_count_inv (get_or_null "offset" d) offset at ∙ ap (λ n. int (pos n)) from_end,
        as_count_inv (get_or_null "nbytes" d) n has,
        ap (λ r. r.previous_end) (sym same_state) ∙ ap (λ m. m + n) from_end,
      )

  bytes_inv :
      (raw : List ℕ) (d : Entries X) (s r : Reading X)
      → read_bytes raw d s ≡ (ok tt, r)
      → Read d s r
  unfolding read_bytes
  bytes_inv raw d s r h =
      let wrong = invalid "invalid bytes descriptor" in
      let bad = λ (offset n end : ℕ). not (offset == end) || ltb (length raw) (offset + n) in
      let finish : ℕ → ℕ → Action (Reading X) (Unit {0}) = λ offset n.
        gets (λ r. r.previous_end) >>= λ end. raise_if (bad offset n end) wrong >>= λ u.
        modify (λ r. record {
          previous_end = offset + n;
          buffers = r.buffers ++ (bytes (take n (drop offset raw)) ∷ []);
        }) in
      let (offset, at, h1) =
        found_inv (as_count (get_or_null "offset" d)) wrong
          (λ offset. or_raise (as_count (get_or_null "nbytes" d)) wrong >>= finish offset) h in
      let (n, has, h2) = found_inv (as_count (get_or_null "nbytes" d)) wrong (finish offset) h1 in
      Read-end d s r offset n (bytes (take n (drop offset raw))) (bad offset n s.previous_end) wrong
        at has (λ right. ground (arith, right)) h2

pub ran :
    {B : Type 0} (done : Result (Unit {0})) (r : Result B) {b : B}
    → Errors.◌>>◌ done r ≡ ok b
    → (u : Unit {0}) × (done ≡ ok u) × (r ≡ ok b)
ran (ok u) r h = (u, refl, h)
ran (err e) r h = cc

module _ {X : Type 0} (torch : Torch X) (codec : PacketCodec X) where
  tensor-Read_inv :
      (raw : List ℕ) (dtype : String) (d : Entries X) (s r : Reading X)
      → read_tensor torch codec raw dtype d s ≡ (ok tt, r)
      → Read d s r
  unfolding read_tensor
  tensor-Read_inv raw dtype d s r h =
      let wrong = invalid "invalid tensor shape or range" in
      let bad = λ (shape : List ℕ) (offset n numel end : ℕ).
        not (product shape == numel)
        || not (product shape * torch.element_size dtype == n)
        || not (offset == end)
        || ltb (length raw) (offset + n)
        || ltb (max_tensor_elements codec) numel in
      let made = λ (shape : List ℕ) (offset n numel : ℕ).
        if numel == 0
        then torch.empty dtype shape
        else torch.from_buffer dtype shape (take n (drop offset raw)) in
      let finish : List ℕ → ℕ → ℕ → ℕ → Action (Reading X) (Unit {0}) = λ shape offset n numel.
        gets (λ r. r.previous_end) >>= λ end.
        raise_if (bad shape offset n numel end)
          (invalid "inconsistent or overlapping tensor descriptor")
        >>= λ u. modify (λ r. record {
          previous_end = offset + n;
          buffers = r.buffers ++ (object (made shape offset n numel) ∷ []);
        }) in
      let numbered : List ℕ → ℕ → ℕ → Action (Reading X) (Unit {0}) = λ shape offset n.
        or_raise (as_count (get_or_null "numel" d)) wrong >>= finish shape offset n in
      let sized : List ℕ → ℕ → Action (Reading X) (Unit {0}) = λ shape offset.
        or_raise (as_count (get_or_null "nbytes" d)) wrong >>= numbered shape offset in
      let placed : List ℕ → Action (Reading X) (Unit {0}) =
        λ shape. or_raise (as_count (get_or_null "offset" d)) wrong >>= sized shape in
      let shaped : Values X → Action (Reading X) (Unit {0}) =
        λ dimensions. or_raise (as_shape dimensions) wrong >>= placed in
      let (dimensions, listed, h1) =
        found_inv (as_list (get_or_null "shape" d)) wrong
          (λ dimensions. raise_if (ltb (max_tensor_rank codec) (size dimensions)) wrong >>= λ u.
            shaped dimensions)
          h in
      let (ranked, h2) =
        guard_inv (ltb (max_tensor_rank codec) (size dimensions)) wrong (λ u. shaped dimensions)
          h1 in
      let (shape, is_shape, h3) = found_inv (as_shape dimensions) wrong placed h2 in
      let (offset, at, h4) = found_inv (as_count (get_or_null "offset" d)) wrong (sized shape) h3 in
      let (n, has, h5) =
        found_inv (as_count (get_or_null "nbytes" d)) wrong (numbered shape offset) h4 in
      let (numel, has_numel, h6) =
        found_inv (as_count (get_or_null "numel" d)) wrong (finish shape offset n) h5 in
      Read-end d s r offset n (object (made shape offset n numel))
        (bad shape offset n numel s.previous_end)
        (invalid "inconsistent or overlapping tensor descriptor") at has
        (no_gap (product shape == numel) (product shape * torch.element_size dtype == n)
          (ltb (length raw) (offset + n)) (ltb (max_tensor_elements codec) numel) offset
          s.previous_end)
        h6

  pub descriptor_inv :
      (raw : List ℕ) (value : Value X) (s r : Reading X)
      → read_descriptor torch codec raw value s ≡ (ok tt, r)
      → (n : ℕ) × Spans value s.previous_end n × (r.previous_end ≡ s.previous_end + n)
  unfolding read_descriptor
  descriptor_inv raw value s r h =
      let dtype_error = invalid "invalid tensor dtype descriptor" in
      let unhashable = exception type_error "unhashable type" in
      let dtype = λ (d : Entries X). get_or_null "dtype" d in
      let typed : Entries X → Action (Reading X) (Unit {0}) = λ d.
        raise_if (not (is_dtype (dtype d))) dtype_error >>= λ u.
        read_tensor torch codec raw (dtype_of (dtype d)) d in
      let hashed : Entries X → Action (Reading X) (Unit {0}) =
        λ d. raise_if (not (hashable torch.is_hashable (dtype d))) unhashable >>= λ u. typed d in
      let tensor : Entries X → Action (Reading X) (Unit {0}) =
        λ d. raise_if (not (is_text (descriptor_kind d) "tensor")) dtype_error >>= λ u. hashed d in
      let (d, is_dict, h1) =
        found_inv (as_dict value) (invalid "invalid raw-buffer descriptor")
          (λ d. if is_text (descriptor_kind d) "bytes" then read_bytes raw d else tensor d) h in
      let (n, at, has, moved) : Read d s r =
        elim (Bool-cases (is_text (descriptor_kind d) "bytes")) [
          | inl is_bytes ↦
              bytes_inv raw d s r
                (ap (λ b. (if b then read_bytes raw d else tensor d) s) (sym is_bytes) ∙ h1)
          | inr no_bytes ↦
              let h2 : tensor d s ≡ (ok tt, r) =
                ap (λ b. (if b then read_bytes raw d else tensor d) s) (sym no_bytes) ∙ h1 in
              let (is_tensor, h3) =
                guard_inv (not (is_text (descriptor_kind d) "tensor")) dtype_error (λ u. hashed d)
                  h2 in
              let (key, h4) =
                guard_inv (not (hashable torch.is_hashable (dtype d))) unhashable (λ u. typed d)
                  h3 in
              let (known, h5) =
                guard_inv (not (is_dtype (dtype d))) dtype_error
                  (λ u. read_tensor torch codec raw (dtype_of (dtype d)) d) h4 in
              tensor-Read_inv raw (dtype_of (dtype d)) d s r h5
        ] in
      (n, (d, as_dict_inv value d is_dict, at, has), moved)
