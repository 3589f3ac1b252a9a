-- ===== src/Packets/Nodes.antt =====
-- The nodes of the object tree, one kind at a time and in both directions.
use Prim.Native.String.{len}
use freethreaded_dataplane.Common.{
  ℕ, ◌≡◌, refl, ap, ◌∙◌, Bool, true, false, List, String, ltb, arith,
}
use freethreaded_dataplane.Common.Int.{ℤ}
use freethreaded_dataplane.Common.Text.{same}
use freethreaded_dataplane.Errors.{Exception, Result, ok}
use freethreaded_dataplane.Exec.{Action, pure, or_raise, raise_if, ◌>>=◌, guard_inv}
use freethreaded_dataplane.Python.{Value, null, bool, int, float, str, placeholder}
use freethreaded_dataplane.Facade.Session.{as_dict}
use freethreaded_dataplane.Packets.Torch.{Torch, JsonText}
use freethreaded_dataplane.Packets.Registry.{PacketCodec, max_string_bytes}
use freethreaded_dataplane.Packets.Encode.{Packing, invalid, node, kind_only, is_int64, is_finite}
use freethreaded_dataplane.Packets.Decode.{decode_node}
use freethreaded_dataplane.Packets.Plain.{is_plain}
use freethreaded_dataplane.Packets.Table.{Packed}
use freethreaded_dataplane.Packets.Containers.{Carries, moved}

module _ {X : Type 0} (torch : Torch X) (json : JsonText X) (codec : PacketCodec X) where
  -- `walk` of `decode` past its guards.
  abbrev pub opened : List (Value X) → (Value X → Action ℕ (Value X)) → Value X → Action ℕ (Value X)
  opened buffers walk n =
      or_raise (as_dict n) (invalid "malformed object tree")
      >>= decode_node torch json codec buffers walk

  -- A node that is written without buffers and read back as it is.
  abbrev pub Kept : (List (Value X) → Value X → Action ℕ (Value X)) → Value X → Value X → Type 0
  Kept decode v n =
      (is_plain n ≡ true)
      × ((buffers : List (Value X)) (elements : ℕ)
          → opened buffers (decode buffers) n elements ≡ (ok v, elements))

  -- The walk's node is carried, over snapshots at any depth.
  abbrev pub NodeCarried :
      (List (Value X) → Value X → Action ℕ (Value X))
      → (ℕ → Result (Value X))
      → Packing X
      → List (Value X)
      → Packing X
      → Value X
      → Type 0
  NodeCarried decode snap s bs t n =
      Carries torch codec {I = ℕ} snap (λ buffers f. opened buffers (decode buffers) n) s.elements
        bs t (is_plain n)

  module _ (decode : List (Value X) → Value X → Action ℕ (Value X)) where
    pub Kept-carried :
        (v n m : Value X) (s t : Packing X) (bs : List (Value X))
        → Packed torch codec s bs
        → Kept decode v n
        → ◌≡◌ {A = Result (Value X) × Packing X} (ok n, s) (ok m, t)
        → NodeCarried decode (λ f. ok v) s bs t m
    Kept-carried v n m s t bs k kept h =
        moved (λ n t. NodeCarried decode (λ f. ok v) s bs t n) h
          (record {
            table = bs;
            grows = λ i b g. g;
            packed = k;
            decodes = λ buffers f b x g. kept.1 buffers s.elements ∙ ap (λ r. (r, s.elements)) g;
            is_plain_json = kept.0;
          })

    pub guarded_carried :
        (wrong : Bool) (e : Exception) (v n m : Value X) (s t : Packing X) (bs : List (Value X))
        → Packed torch codec s bs
        → (wrong ≡ false → Kept decode v n)
        → (raise_if wrong e >>= λ u. pure n) s ≡ (ok m, t)
        → NodeCarried decode (λ f. ok v) s bs t m
    guarded_carried wrong e v n m s t bs k kept h =
        let (passed, finish) = guard_inv wrong e (λ u. pure n) h in
        Kept-carried v n m s t bs k (kept passed) finish

    pub null-Kept : Kept decode null (kind_only "none")
    unfolding decode_node same is_plain
    null-Kept = (refl, λ buffers elements. refl)

    pub bool-Kept : (b : Bool) → Kept decode (bool b) (node "bool" "value" (bool b))
    unfolding decode_node same is_plain
    bool-Kept b = (refl, λ buffers elements. refl)

    pub int-Kept : (z : ℤ) → is_int64 z ≡ true → Kept decode (int z) (node "int" "value" (int z))
    unfolding decode_node same is_plain
    int-Kept z h = (refl, λ buffers elements. ground (arith, h))

    pub float-Kept :
        (bits : ℕ)
        → is_finite bits ≡ true
        → Kept decode (float bits) (node "float" "value" (float bits))
    unfolding decode_node same is_plain
    float-Kept bits h = (ground (arith, h), λ buffers elements. ground (arith, h))

    pub str-Kept :
        (s : String)
        → ltb (max_string_bytes codec) (len s) ≡ false
        → Kept decode (str s) (node "str" "value" (str s))
    unfolding decode_node same is_plain
    str-Kept s h = (refl, λ buffers elements. ground (arith, h))

    pub placeholder-Kept :
        (s : String)
        → ltb (max_string_bytes codec) (len s) ≡ false
        → Kept decode (placeholder s) (node "value_error_placeholder" "message" (str s))
    unfolding decode_node same is_plain
    placeholder-Kept s h = (refl, λ buffers elements. ground (arith, h))
