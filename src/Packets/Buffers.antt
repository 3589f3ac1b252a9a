-- ===== src/Packets/Buffers.antt =====
-- The two kinds of raw buffer, as `encode` stores them and `decode` reads them.
use freethreaded_dataplane.Common.{
  ℕ, suc, ◌+◌, ◌*◌, ◌≤◌, ◌≡◌, refl, sym, ap, ◌∙◌, true, some, List, [], ◌∷◌, ◌++◌, String, length,
  take, drop, ◌==◌, if◌then◌else◌, inl, inr, arith, Bool-cases, map,
}
use mathlib.Core.Path.{ap₂}
use freethreaded_dataplane.Common.Text.{same}
use freethreaded_dataplane.Common.Members.{member}
use freethreaded_dataplane.Errors.{ok}
use freethreaded_dataplane.Python.{Value, values, bytes, object}
use freethreaded_dataplane.Packets.Torch.{Torch, product, dtype_names, IsDense, IsTorch}
use freethreaded_dataplane.Packets.Registry.{PacketCodec, max_tensor_rank, max_tensor_elements}
use freethreaded_dataplane.Packets.Encode.{bytes_descriptor, tensor_descriptor, count}
use freethreaded_dataplane.Packets.Descriptors.{read_descriptor, as_shape, size}
use freethreaded_dataplane.Packets.Table.{Reads}

module _ (X : Type 0) where
  as_shape-counts : (ns : List ℕ) → as_shape {X = X} (values (map count ns)) ≡ some ns
  unfolding as_shape
  as_shape-counts [] = refl
  as_shape-counts (n ∷ ns) = ground (arith, as_shape-counts ns)

  length-counts : (ns : List ℕ) → length (map (count {X = X}) ns) ≡ length ns
  length-counts [] = refl
  length-counts (n ∷ ns) = ap suc (length-counts ns)

module _ {X : Type 0} where
  pub size-values : (vs : List (Value X)) → size (values vs) ≡ length vs
  unfolding size
  size-values [] = refl
  size-values (v ∷ vs) = ap suc (size-values vs)

module _ {X : Type 0} (torch : Torch X) (codec : PacketCodec X) where
  pub bytes_read :
      (chunk : List ℕ)
      → Reads torch codec (λ offset. bytes_descriptor offset (length chunk)) chunk (bytes chunk)
  unfolding read_descriptor same
  bytes_read chunk raw offset bs here inside = ground arith

  tensor_checked :
      (raw : List ℕ) (dtype : String) (shape : List ℕ) (offset : ℕ) (bs : List (Value X)) (n : ℕ)
      (x : X)
      → product shape * torch.element_size dtype ≡ n
      → length shape ≤ max_tensor_rank codec
      → product shape ≤ max_tensor_elements codec
      → offset + n ≤ length raw
      → (if product shape == 0
          then torch.empty dtype shape
          else torch.from_buffer dtype shape (take n (drop offset raw)))
        ≡ x
      → member dtype dtype_names ≡ true
      → read_descriptor torch codec raw
          (tensor_descriptor dtype shape offset n (product shape))
          (record { previous_end = offset; buffers = bs })
        ≡ (ok tt, record { previous_end = offset + n; buffers = bs ++ (object x ∷ []) })
  unfolding read_descriptor same
  tensor_checked raw dtype shape offset bs n x bytes_fit rank_fits elements_fit inside built typed =
      ground (
        arith,
        as_shape-counts X shape,
        size-values (map (count {X = X}) shape),
        length-counts X shape,
      )

  pub tensor_bytes_count :
      (x : X)
      → IsTorch torch
      → IsDense torch x
      → product (torch.shape (torch.snapshot x))
          * torch.element_size (torch.dtype (torch.snapshot x))
        ≡ length (torch.raw_bytes (torch.snapshot x))
  tensor_bytes_count x law dense =
      ap₂ (λ s d. product s * torch.element_size d) (law.snapshot_shape x) (law.snapshot_dtype x)
      ∙ sym (law.bytes_count x dense)

  pub tensor_read :
      (x : X)
      → IsTorch torch
      → IsDense torch x
      → length (torch.shape (torch.snapshot x)) ≤ max_tensor_rank codec
      → product (torch.shape (torch.snapshot x)) ≤ max_tensor_elements codec
      → let snapshot = torch.snapshot x in
        let chunk = torch.raw_bytes snapshot in
        let numel = product (torch.shape snapshot) in
        Reads torch codec
          (λ offset.
            tensor_descriptor
              (torch.dtype snapshot)
              (torch.shape snapshot)
              offset
              (length chunk)
              numel)
          chunk
          (object snapshot)
  tensor_read x law dense rank_fits elements_fit raw offset bs here inside =
      let snapshot = torch.snapshot x in
      let dtype = torch.dtype snapshot in
      let shape = torch.shape snapshot in
      let chunk = torch.raw_bytes snapshot in
      let same_dtype = law.snapshot_dtype x in
      let same_shape = law.snapshot_shape x in
      let emptied : product shape ≡ 0 → torch.empty dtype shape ≡ snapshot = λ none_there.
        ap₂ torch.empty same_dtype same_shape
        ∙ law.empty_read x dense (ap product (sym same_shape) ∙ none_there) in
      let filled : torch.from_buffer dtype shape (take (length chunk) (drop offset raw))
          ≡ snapshot =
        ap (torch.from_buffer dtype shape) here
        ∙ ap₂ (λ d s. torch.from_buffer d s chunk) same_dtype same_shape
        ∙ law.buffer_read x dense in
      let built : (if product shape == 0
            then torch.empty dtype shape
            else torch.from_buffer dtype shape (take (length chunk) (drop offset raw)))
          ≡ snapshot =
        elim (Bool-cases (product shape == 0)) [
          | inl zeros ↦ ground (arith, emptied (ground arith))
          | inr some_there ↦ ground (arith, filled)
        ] in
      tensor_checked raw dtype shape offset bs (length chunk) snapshot
        (tensor_bytes_count x law dense) rank_fits elements_fit inside built
        (ap (λ d. member d dtype_names) same_dtype ∙ dense.typed)
