-- ===== src/Packets/Depth.antt =====
-- `map_tensors` at more depth than it needs.
use freethreaded_dataplane.Common.{ℕ, zero, suc, ◌≡◌, ◌∙◌, Bool, true, false, not, if◌then◌else◌}
use freethreaded_dataplane.Common.Text.{◌<>◌}
use freethreaded_dataplane.Common.Dict.{lookup}
use freethreaded_dataplane.Errors
use freethreaded_dataplane.Errors.{
  Exception, Result, ok, err, exception, type_error, attribute_error,
}
use freethreaded_dataplane.Python.{
  Value, Values, Entries, list, tuple, dict, object, nil, cons, end, entry,
}
use freethreaded_dataplane.Library.{hashable}
use freethreaded_dataplane.Facade.Session.{as_dict}
use freethreaded_dataplane.Packets.Torch.{Torch}
use freethreaded_dataplane.Packets.Registry.{TypeAdapter, PacketCodec}
use freethreaded_dataplane.Packets.Keys.{put}
use freethreaded_dataplane.Packets.Encode.{invalid}
use freethreaded_dataplane.Packets.MapTensors.{
  map_each, map_fields, map_items, map_custom, map_node, snapshot,
}

-- What a function gives, another gives too.
abbrev pub Under : {A B : Type 0} → (A → Result B) → (A → Result B) → Type 0
Under {A} {B} go more = (a : A) (b : B) → go a ≡ ok b → more a ≡ ok b

Under-bind :
    {B C : Type 0} (r t : Result B) (f g : B → Result C) (c : C)
    → ((b : B) → r ≡ ok b → t ≡ ok b)
    → Under f g
    → Errors.◌>>=◌ r f ≡ ok c
    → Errors.◌>>=◌ t g ≡ ok c
Under-bind r t f g c h k e =
    let (b, first, later) = Errors.bind-eq-ok r f e in Errors.bind-ok t g (h b first) ∙ k b c later

under_if :
    {C : Type 0} (b : Bool) (r s t : Result C) (c : C)
    → (s ≡ ok c → t ≡ ok c)
    → (if b then r else s) ≡ ok c
    → (if b then r else t) ≡ ok c
under_if true r s t c k e = e
under_if false r s t c k e = k e

under_guard :
    {C : Type 0} (wrong : Bool) (e : Exception) (r t : Result C) (c : C)
    → (r ≡ ok c → t ≡ ok c)
    → Errors.◌>>◌ (Errors.raise_if wrong e) r ≡ ok c
    → Errors.◌>>◌ (Errors.raise_if wrong e) t ≡ ok c
under_guard true e r t c k h = cc
under_guard false e r t c k h = k h

module _ {X : Type 0} (go more : Value X → Result (Value X)) (h : Under go more) where
  each-Under : Under (map_each go) (map_each more)
  unfolding map_each
  each-Under nil b e = e
  each-Under (cons v vs) b e =
      let finish : Value X → Values X → Result (Values X) = λ item items. ok (cons item items) in
      Under-bind (go v) (more v) (λ item. Errors.◌>>=◌ (map_each go vs) (finish item))
        (λ item. Errors.◌>>=◌ (map_each more vs) (finish item)) b (h v)
        (λ item c.
          Under-bind (map_each go vs) (map_each more vs) (finish item) (finish item) c
            (each-Under vs) (λ d c e. e))
        e

  pub fields-Under : Under (map_fields go) (map_fields more)
  unfolding map_fields
  fields-Under end b e = e
  fields-Under (entry k v d) b e =
      let finish : Value X → Entries X → Result (Entries X) =
        λ value rest. ok (entry k value rest) in
      Under-bind (go v) (more v) (λ value. Errors.◌>>=◌ (map_fields go d) (finish value))
        (λ value. Errors.◌>>=◌ (map_fields more d) (finish value)) b (h v)
        (λ value c.
          Under-bind (map_fields go d) (map_fields more d) (finish value) (finish value) c
            (fields-Under d) (λ d c e. e))
        e

  module _ (torch : Torch X) where
    items_under :
        (d so_far e : Entries X)
        → map_items torch go d so_far ≡ ok e
        → map_items torch more d so_far ≡ ok e
    unfolding map_items
    items_under end so_far b e = e
    items_under (entry k v d) so_far b e =
        let rest = λ (go : Value X → Result (Value X)) (key value : Value X).
          Errors.◌>>◌
            (Errors.raise_if (not (hashable torch.is_hashable key))
              (exception type_error "unhashable type"))
            (map_items torch go d (put torch so_far key value)) in
        Under-bind (go k) (more k) (λ key. Errors.◌>>=◌ (go v) (rest go key))
          (λ key. Errors.◌>>=◌ (more v) (rest more key)) b (h k)
          (λ key c. Under-bind (go v) (more v) (rest go key) (rest more key) c (h v) λ value c.
            under_guard (not (hashable torch.is_hashable key))
              (exception type_error "unhashable type")
              (map_items torch go d (put torch so_far key value))
              (map_items torch more d (put torch so_far key value)) c
              (items_under d (put torch so_far key value) c))
          e

    module _ (codec : PacketCodec X) where
      custom-Under : Under (map_custom torch codec go) (map_custom torch codec more)
      unfolding map_custom
      custom-Under x b e =
          let found =
            Errors.or_raise (lookup (torch.class_of x) codec.by_type)
              (invalid ("unsupported value type: " <> torch.class_of x)) in
          let given = λ (v : Value X).
            Errors.or_raise (as_dict v)
              (exception attribute_error "object has no attribute 'items'") in
          let rest = λ (go : Value X → Result (Value X)) (a : TypeAdapter X) (d : Entries X).
            Errors.◌>>=◌ (map_fields go d) a.decode_fields in
          let fields = λ (go : Value X → Result (Value X)) (a : TypeAdapter X).
            Errors.◌>>=◌ (a.encode_fields x) λ v. Errors.◌>>=◌ (given v) (rest go a) in
          Under-bind found found (fields go) (fields more) b (λ a e. e)
            (λ a c.
              Under-bind (a.encode_fields x) (a.encode_fields x)
                (λ v. Errors.◌>>=◌ (given v) (rest go a))
                (λ v. Errors.◌>>=◌ (given v) (rest more a)) c (λ v e. e)
                (λ v c.
                  Under-bind (given v) (given v) (rest go a) (rest more a) c (λ d e. e)
                    (λ d c.
                      Under-bind (map_fields go d) (map_fields more d) a.decode_fields
                        a.decode_fields c (fields-Under d) (λ m c e. e))))
            e

      node-Under :
          (transform : X → Result (Value X))
          → Under (map_node torch codec transform go) (map_node torch codec transform more)
      unfolding map_node
      node-Under transform (list vs) b e =
          Under-bind (map_each go vs) (map_each more vs) (λ items. ok (list items))
            (λ items. ok (list items)) b (each-Under vs) (λ c d e. e) e
      node-Under transform (tuple vs) b e =
          Under-bind (map_each go vs) (map_each more vs) (λ items. ok (tuple items))
            (λ items. ok (tuple items)) b (each-Under vs) (λ c d e. e) e
      node-Under transform (dict d) b e =
          Under-bind (map_items torch go d end) (map_items torch more d end)
            (λ items. ok (dict items)) (λ items. ok (dict items)) b (items_under d end) (λ c d e. e)
            e
      node-Under transform (object x) b e =
          under_if (torch.is_tensor x) (transform x) (map_custom torch codec go x)
            (map_custom torch codec more x) b (custom-Under x b) e
      node-Under transform _ b e = e

module _ {X : Type 0} (torch : Torch X) (codec : PacketCodec X) where
  pub deeper-Under : (f : ℕ) → Under (snapshot torch codec f) (snapshot torch codec (suc f))
  unfolding snapshot
  deeper-Under zero v b e = cc
  deeper-Under (suc f) v b e =
      node-Under (snapshot torch codec f) (snapshot torch codec (suc f)) (deeper-Under f) torch
        codec (λ x. ok (object (torch.snapshot x))) v b e
