-- ===== src/Packets/BufferNodes.antt =====
-- The nodes that name raw buffers, of bytes and of tensors.
use freethreaded_dataplane.Common.{
  ℕ, ◌*◌, ◌≤◌, ◌≡◌, refl, sym, ap, subst, ◌∙◌, Bool, true, false, not, ◌||◌, some, List, [], ◌∷◌,
  ◌++◌, String, length, ltb, arith, get_elem?, if◌then◌else◌,
}
use freethreaded_dataplane.Common.Text.{same}
use freethreaded_dataplane.Common.Members.{member}
use freethreaded_dataplane.Errors.{ok}
use freethreaded_dataplane.Exec.{Action, pure, raise_if, ◌>>=◌, bind_inv, guard_inv}
use freethreaded_dataplane.Python.{Value, bytes, object}
use freethreaded_dataplane.Packets.Torch.{Torch, JsonText, IsDense, IsTorch, dtype_names, product}
use freethreaded_dataplane.Packets.Registry.{PacketCodec, max_tensor_rank, max_tensor_elements}
use freethreaded_dataplane.Packets.Encode.{
  Packing, invalid, node, count, store, encode_bytes, encode_tensor, bytes_descriptor,
  tensor_descriptor,
}
use freethreaded_dataplane.Packets.Decode.{decode_node}
use freethreaded_dataplane.Packets.Plain.{is_plain, all_plain-counts}
use freethreaded_dataplane.Packets.Table.{
  Packed, Reads, stored, stored-Packed, store_inv, append-Extends, get_elem?-last,
}
use freethreaded_dataplane.Packets.Buffers.{bytes_read, tensor_read, tensor_bytes_count}
use freethreaded_dataplane.Packets.Containers.{moved}
use freethreaded_dataplane.Packets.Nodes.{opened, NodeCarried}

module _ {X : Type 0} (torch : Torch X) (codec : PacketCodec X) where
  tensor_plain :
      (dtype : String) (shape : List ℕ) (offset nbytes numel : ℕ)
      → is_plain {X = X} (tensor_descriptor dtype shape offset nbytes numel) ≡ true
  unfolding is_plain
  tensor_plain dtype shape offset nbytes numel = ground (arith, all_plain-counts X shape)

  -- What the guards of `encode_tensor` let through.
  pub tensor_inv :
      (x : X) (m : Value X) (s t : Packing X)
      → IsTorch torch
      → torch.is_tensor x ≡ true
      → encode_tensor torch codec x s ≡ (ok m, t)
      → let snapshot = torch.snapshot x in
        let shape = torch.shape snapshot in
        let chunk = torch.raw_bytes snapshot in
        IsDense torch x
        × (length shape ≤ max_tensor_rank codec)
        × (product shape ≤ max_tensor_elements codec)
        × ((store torch codec "tensor region exceeds configured limit" "too many tensors"
                  (λ offset.
                    tensor_descriptor
                      (torch.dtype snapshot)
                      shape
                      offset
                      (length chunk)
                      (product shape))
                  chunk
                  (length chunk)
                >>= λ index. pure (node "tensor" "index" (count index)))
              s
            ≡ (ok m, t))
  unfolding encode_tensor
  tensor_inv x m s t law is_one h =
      let snapshot = torch.snapshot x in
      let shape = torch.shape snapshot in
      let storing : ℕ → Action (Packing X) (Value X) = λ nbytes.
        store torch codec "tensor region exceeds configured limit" "too many tensors"
          (λ offset. tensor_descriptor (torch.dtype snapshot) shape offset nbytes (product shape))
          (torch.raw_bytes snapshot) nbytes
        >>= λ index. pure (node "tensor" "index" (count index)) in
      let nbytes = product shape * torch.element_size (torch.dtype snapshot) in
      let limited : Unit {0} → Action (Packing X) (Value X) = λ u.
        raise_if
          (ltb (max_tensor_rank codec) (length (torch.shape x))
            || ltb (max_tensor_elements codec) (product (torch.shape x)))
          (invalid "tensor shape exceeds configured limits")
        >>= λ u. storing nbytes in
      let (supported, h') =
        guard_inv
          (not (same (torch.layout x) "torch.strided") || not (member (torch.dtype x) dtype_names))
          _ limited h in
      let (fits, h'') =
        guard_inv
          (ltb (max_tensor_rank codec) (length (torch.shape x))
            || ltb (max_tensor_elements codec) (product (torch.shape x)))
          _ (λ u. storing nbytes) h' in
      let dense : IsDense torch x = record {
        tensor = is_one;
        strided = ground (arith, supported);
        typed = ground (arith, supported);
      } in
      (
        dense,
        ground (arith, fits, ap length (law.snapshot_shape x)),
        ground (arith, fits, ap product (law.snapshot_shape x)),
        subst (λ n. storing n s ≡ (ok m, t)) (tensor_bytes_count torch codec x law dense) h'',
      )

module _ {X : Type 0} (torch : Torch X) (json : JsonText X) (codec : PacketCodec X) where
  -- The kind of a buffer.
  abbrev pub buffer_kind : Bool → Value X → Bool
  buffer_kind true (object x) = torch.is_tensor x
  buffer_kind false (bytes b) = true
  buffer_kind _ _ = false

  module _ (decode : List (Value X) → Value X → Action ℕ (Value X)) where
    -- A node that names a buffer.
    index_read :
        (buffers : List (Value X)) (kind : Bool) (i : ℕ) (b : Value X) (n : ℕ)
        → get_elem? buffers i ≡ some b
        → buffer_kind kind b ≡ true
        → opened torch json codec buffers
            (decode buffers)
            (node (if kind then "tensor" else "bytes") "index" (count i))
            n
          ≡ (ok b, n)
    unfolding decode_node same
    index_read buffers true i (object x) n found fits = ground (arith, found, fits)
    index_read buffers false i (bytes b) n found fits = ground (arith, found)
    index_read buffers kind i b n found fits = ground arith

    -- A buffer that is stored and named by a node.
    pub stored_carried :
        (large many : String) (kind : Bool) (descriptor : ℕ → Value X) (chunk : List ℕ)
        (b m : Value X) (s t : Packing X) (bs : List (Value X))
        → Packed torch codec s bs
        → Reads torch codec descriptor chunk b
        → ((offset : ℕ) → is_plain (descriptor offset) ≡ true)
        → buffer_kind kind b ≡ true
        → (store torch codec large many descriptor chunk (length chunk) >>= λ index.
              pure (node (if kind then "tensor" else "bytes") "index" (count index)))
            s
          ≡ (ok m, t)
        → NodeCarried torch json codec decode (λ f. ok b) s bs t m
    unfolding stored is_plain
    stored_carried large many kind descriptor chunk b m s t bs k reads plain fits h =
        let (index, s', storing, finish) =
          bind_inv (store torch codec large many descriptor chunk (length chunk))
            (λ index. pure (node (if kind then "tensor" else "bytes") "index" (count index))) h in
        let (same_index, same_state, room, few) =
          store_inv torch codec large many descriptor chunk (length chunk) index s s' storing in
        let packed = stored-Packed torch codec s bs descriptor chunk b k reads plain room few in
        let written = stored torch codec s descriptor chunk (length chunk) in
        let named : get_elem? (bs ++ (b ∷ [])) index ≡ some b =
          subst (λ i. get_elem? (bs ++ (b ∷ [])) i ≡ some b) (sym (same_index ∙ k.counted))
            (get_elem?-last bs b) in
        moved (λ m t. NodeCarried torch json codec decode (λ f. ok b) s bs t m)
          (ap (λ t. (ok (node (if kind then "tensor" else "bytes") "index" (count index)), t))
              (sym same_state)
            ∙ finish)
          (record {
            table = bs ++ (b ∷ []);
            grows = append-Extends bs b;
            packed = packed;
            decodes = λ buffers f c x g.
                index_read buffers kind index b s.elements (x index b named) fits
                ∙ ap (λ r. (r, s.elements)) g;
            is_plain_json = refl;
          })

    pub bytes_carried :
        (obj : List ℕ) (m : Value X) (s t : Packing X) (bs : List (Value X))
        → Packed torch codec s bs
        → encode_bytes torch codec obj s ≡ (ok m, t)
        → NodeCarried torch json codec decode (λ f. ok (bytes obj)) s bs t m
    unfolding encode_bytes is_plain
    bytes_carried obj m s t bs k h =
        stored_carried "raw region exceeds configured limit" "too many raw buffers" false
          (λ offset. bytes_descriptor offset (length obj)) obj (bytes obj) m s t bs k
          (bytes_read torch codec obj) (λ offset. refl) refl h

    pub tensor_carried :
        (x : X) (m : Value X) (s t : Packing X) (bs : List (Value X))
        → IsTorch torch
        → torch.is_tensor x ≡ true
        → Packed torch codec s bs
        → encode_tensor torch codec x s ≡ (ok m, t)
        → NodeCarried torch json codec decode (λ f. ok (object (torch.snapshot x))) s bs t m
    tensor_carried x m s t bs law is_one k h =
        let snapshot = torch.snapshot x in
        let shape = torch.shape snapshot in
        let chunk = torch.raw_bytes snapshot in
        let (dense, rank_fits, elements_fit, storing) =
          tensor_inv torch codec x m s t law is_one h in
        stored_carried "tensor region exceeds configured limit" "too many tensors" true
          (λ offset.
            tensor_descriptor (torch.dtype snapshot) shape offset (length chunk) (product shape))
          chunk (object snapshot) m s t bs k
          (tensor_read torch codec x law dense rank_fits elements_fit)
          (λ offset.
            tensor_plain torch codec (torch.dtype snapshot) shape offset (length chunk)
              (product shape))
          (law.snapshot_tensor x is_one) storing
