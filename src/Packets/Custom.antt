-- ===== src/Packets/Custom.antt =====
-- The nodes of objects that an adapter takes apart.
use freethreaded_dataplane.Common.{
  ℕ, zero, suc, ◌≡◌, refl, sym, ap, subst, ◌∙◌, true, not, some, List, [], ◌∷◌, String, arith,
}
use mathlib.Core.Path.{ap₂}
use freethreaded_dataplane.Common.Text.{◌<>◌, same}
use freethreaded_dataplane.Common.Dict.{lookup}
use freethreaded_dataplane.Errors
use freethreaded_dataplane.Errors.{
  Exception, Result, ok, err, exception, attribute_error, type_error,
}
use freethreaded_dataplane.Exec.{
  Action, pure, raise, or_raise, of_result, ◌>>=◌, bind_ok, bind_inv, found_inv, result_inv,
}
use freethreaded_dataplane.Python.{Value, Entries, str, dict, end, entry, fields}
use freethreaded_dataplane.Library.{hashable}
use freethreaded_dataplane.Facade.Session.{as_dict}
use freethreaded_dataplane.Packets.Torch.{Torch, JsonText}
use freethreaded_dataplane.Packets.Registry.{TypeAdapter, PacketCodec, IsRegistry}
use freethreaded_dataplane.Packets.Keys.{append, put}
use freethreaded_dataplane.Packets.Encode.{
  Packing, invalid, encode_custom, fields_of, all_text_keys,
}
use freethreaded_dataplane.Packets.Decode.{decode_node}
use freethreaded_dataplane.Packets.MapTensors.{map_items, map_fields, map_custom, snapshot}
use freethreaded_dataplane.Packets.Plain.{is_plain}
use freethreaded_dataplane.Packets.Table.{Packed}
use freethreaded_dataplane.Packets.KeyedItems.{Keyed, put_new, SameKeys, append-SameKeys}
use freethreaded_dataplane.Packets.Containers.{Carried, moved}
use freethreaded_dataplane.Packets.Nodes.{opened, NodeCarried}

-- Entries after others.
abbrev followed : {X : Type 0} → Entries X → Entries X → Entries X
followed end e = e
followed (entry k v d) e = entry k v (followed d e)

followed-append :
    {X : Type 0} (d e : Entries X) (k v : Value X)
    → followed (append d k v) e ≡ followed d (entry k v e)
unfolding append
followed-append end e k v = refl
followed-append (entry j w d) e k v = ap (entry j w) (followed-append d e k v)

followed-end : {X : Type 0} (d : Entries X) → followed d end ≡ d
followed-end end = refl
followed-end (entry k v d) = ap (entry k v) (followed-end d)

as_dict_inv : {X : Type 0} (v : Value X) (d : Entries X) → as_dict v ≡ some d → v ≡ dict d
as_dict_inv (dict e) d h = ground arith
as_dict_inv _ d h = cc

module _ {X : Type 0} (torch : Torch X) (P : Value X → Type 0) where
  -- A dictionary with text keys is mapped by its fields as it is by its items.
  items_of_fields :
      (go : Value X → Result (Value X)) (d seen so_far e : Entries X)
      → ((k : String) (v w : Value X) → go v ≡ ok w → go (str k) ≡ ok (str k))
      → SameKeys torch so_far seen
      → Keyed torch P seen d
      → all_text_keys d ≡ true
      → map_fields go d ≡ ok e
      → map_items torch go d so_far ≡ ok (followed so_far e)
  unfolding map_fields map_items all_text_keys hashable
  items_of_fields go end seen so_far e kept alike keyed texts h =
      let none_left : end ≡ e = cc in
      ap ok (sym (followed-end so_far) ∙ ap (followed so_far) none_left)
  items_of_fields go (entry (str k) v d) seen so_far e kept alike keyed texts h =
      let (w, mapped, h') =
        Errors.bind-eq-ok (go v)
          (λ value. Errors.◌>>=◌ (map_fields go d) λ rest. ok (entry (str k) value rest)) h in
      let (rest, others, finish) =
        Errors.bind-eq-ok (map_fields go d) (λ rest. ok (entry (str k) w rest)) h' in
      let more =
        items_of_fields go d (append seen (str k) v) (append so_far (str k) w) rest kept
          (append-SameKeys torch so_far seen (str k) w v alike) keyed.4 texts others in
      let put_there = put_new torch so_far (str k) w (alike (str k) ∙ keyed.1) in
      let appended = followed-append so_far rest (str k) w in
      let all_there : entry (str k) w rest ≡ e = cc in
      let put_next : Value X → Value X → Result (Entries X) = λ key value.
        Errors.◌>>◌
          (Errors.raise_if (not (hashable torch.is_hashable key))
            (exception type_error "unhashable type"))
          (map_items torch go d (put torch so_far key value)) in
      Errors.bind-ok (go (str k)) (λ key. Errors.◌>>=◌ (go v) (put_next key)) (kept k v w mapped)
      ∙ Errors.bind-ok (go v) (put_next (str k)) mapped
      ∙ ap (map_items torch go d) put_there
      ∙ more
      ∙ ap ok (appended ∙ ap (followed so_far) all_there)
  items_of_fields go (entry k v d) seen so_far e kept alike keyed texts h = cc

module _ {X : Type 0} (torch : Torch X) (codec : PacketCodec X) (P : Value X → Type 0) where
  -- What an object's adapter gives satisfies `P`, and its keys are each there once.
  abbrev pub Fields : X → Type 0
  Fields x =
      (a : TypeAdapter X) (d : Entries X)
      → lookup (torch.class_of x) codec.by_type ≡ some a
      → a.encode_fields x ≡ ok (dict d)
      → P (dict d) × Keyed torch (λ v. Unit {0}) end d

module _ {X : Type 0} (torch : Torch X) (codec : PacketCodec X) where
  -- What `fields_of` found.
  fields_inv :
      (a : TypeAdapter X) (x : X) (value : Value X)
      → fields_of torch codec a x ≡ ok value
      → (d : Entries X) × (value ≡ dict d)
        × (a.encode_fields x ≡ ok (dict d))
        × (all_text_keys d ≡ true)
  unfolding fields_of
  fields_inv a x value h =
      let wrong = invalid "adapter fields must be a string-keyed dict" in
      let checked = λ (v : Value X) (d : Entries X).
        Errors.◌>>◌ (Errors.raise_if (not (all_text_keys d)) wrong) (ok v) in
      let (v, encoded, h') =
        Errors.bind-eq-ok (a.encode_fields x)
          (λ v. Errors.◌>>=◌ (Errors.or_raise (as_dict v) wrong) (checked v)) h in
      let (d, is_dict, h'') = Errors.found_inv (as_dict v) wrong (checked v) h' in
      let (texts, finish) = Errors.guard_inv (not (all_text_keys d)) wrong (ok v) h'' in
      let same_value = as_dict_inv v d is_dict in (d, cc, encoded ∙ ap ok same_value, ground arith)

  -- The node of an object whose adapter gave the fields `d`.
  abbrev pub custom_node : String → Value X → Value X
  custom_node tag walked =
      dict (fields (("kind", str "custom") ∷ ("tag", str tag) ∷ ("fields", walked) ∷ []))

  pub custom_inv :
      (walk : Value X → Action (Packing X) (Value X)) (x : X) (m : Value X) (s t : Packing X)
      → encode_custom torch codec walk x s ≡ (ok m, t)
      → (a : TypeAdapter X) × (d : Entries X) × (walked : Value X) × (lookup
            (torch.class_of x)
            codec.by_type
          ≡ some a)
        × (a.encode_fields x ≡ ok (dict d))
        × (all_text_keys d ≡ true)
        × (walk (dict d) s ≡ (ok walked, t))
        × (custom_node a.tag walked ≡ m)
  unfolding encode_custom
  custom_inv walk x m s t h =
      let (a, found, h1) =
        found_inv (lookup (torch.class_of x) codec.by_type) _
          (λ a. of_result (fields_of torch codec a x) >>= λ value.
            walk value >>= λ walked. pure (custom_node a.tag walked))
          h in
      let (value, given, h2) =
        result_inv (fields_of torch codec a x)
          (λ value. walk value >>= λ walked. pure (custom_node a.tag walked)) h1 in
      let (d, same_value, encoded, texts) = fields_inv a x value given in
      let (walked, s', went, finish) =
        bind_inv (walk value) (λ walked. pure (custom_node a.tag walked)) h2 in
      let same_state : s' ≡ t = cc in
      (
        a,
        d,
        walked,
        found,
        encoded,
        texts,
        subst (λ t. walk (dict d) s ≡ (ok walked, t)) same_state
            (ap (λ v. walk v s) (sym same_value) ∙ went),
        cc,
      )

module _ {X : Type 0} (torch : Torch X) (json : JsonText X) (codec : PacketCodec X) where
  module _ (decode : List (Value X) → Value X → Action ℕ (Value X)) (P : Value X → Type 0)
      (walk : Value X → Action (Packing X) (Value X))
      (c : Carried torch codec walk (snapshot torch codec) decode P) where
    custom_read :
        (buffers : List (Value X)) (a : TypeAdapter X) (walked v : Value X) (e : Entries X)
        (n n' : ℕ)
        → lookup a.tag codec.by_tag ≡ some a
        → decode buffers walked n ≡ (ok (dict e), n')
        → a.decode_fields e ≡ ok v
        → opened torch json codec buffers (decode buffers) (custom_node torch codec a.tag walked) n
          ≡ (ok v, n')
    unfolding decode_node same
    custom_read buffers a walked v e n n' found decoded built =
        let finish : TypeAdapter X → Value X → Action ℕ (Value X) = λ adapter walked.
          or_raise (as_dict walked) (invalid "custom fields are not a dict") >>= λ field_values.
          elim (adapter.decode_fields field_values) [
            | ok value ↦ pure value
            | err exc ↦ raise (invalid ("adapter " <> adapter.tag <> " rejected fields"))
          ] in
        let finished : finish a (dict e) n' ≡ (ok v, n') = ground (arith, built) in
        ap
          (λ o.
            (or_raise o (invalid ("unregistered custom tag: " <> a.tag)) >>= λ adapter.
            decode buffers walked >>= finish adapter)
              n)
          found
        ∙ bind_ok (decode buffers walked) (finish a) decoded
        ∙ finished

    text_kept :
        (f : ℕ) (k : String) (v w : Value X)
        → snapshot torch codec f v ≡ ok w
        → snapshot torch codec f (str k) ≡ ok (str k)
    unfolding snapshot
    text_kept zero k v w h = cc
    text_kept (suc f) k v w h = refl

    -- A snapshot of a dictionary's fields is one of the dictionary.
    fields_snapshot :
        (f : ℕ) (d e : Entries X)
        → Keyed torch (λ v. Unit {0}) end d
        → all_text_keys d ≡ true
        → map_fields (snapshot torch codec f) d ≡ ok e
        → snapshot torch codec (suc f) (dict d) ≡ ok (dict e)
    unfolding snapshot map_fields
    fields_snapshot f d e keyed texts h =
        Errors.bind-ok (map_items torch (snapshot torch codec f) d end) (λ items. ok (dict items))
          (items_of_fields torch (λ v. Unit {0}) (snapshot torch codec f) d end end e (text_kept f)
            (λ j. refl) keyed texts h)

    custom_mapped :
        (f : ℕ) (x : X) (a : TypeAdapter X) (d : Entries X) (b : Value X)
        → lookup (torch.class_of x) codec.by_type ≡ some a
        → a.encode_fields x ≡ ok (dict d)
        → map_custom torch codec (snapshot torch codec f) x ≡ ok b
        → (e : Entries X) × (map_fields (snapshot torch codec f) d ≡ ok e)
          × (a.decode_fields e ≡ ok b)
    unfolding map_custom
    custom_mapped f x a d b found encoded h =
        let mapped_from : Value X → TypeAdapter X → Result (Value X) = λ v a.
          Errors.◌>>=◌
            (Errors.or_raise (as_dict v)
              (exception attribute_error "object has no attribute 'items'"))
            λ d. Errors.◌>>=◌ (map_fields (snapshot torch codec f) d) a.decode_fields in
        let (a', found', h') =
          Errors.found_inv (lookup (torch.class_of x) codec.by_type) _
            (λ a. Errors.◌>>=◌ (a.encode_fields x) λ v. mapped_from v a) h in
        let same_adapter : a' ≡ a = cc in
        let (v, encoded', h'') =
          Errors.bind-eq-ok (a'.encode_fields x) (λ v. mapped_from v a') h' in
        let same_fields : v ≡ dict d =
          let both : ◌≡◌ {A = Result (Value X)} (ok v) (ok (dict d)) =
            sym encoded' ∙ ap (λ a. a.encode_fields x) same_adapter ∙ encoded in
          cc in
        let h3 : mapped_from (dict d) a ≡ ok b =
          ap₂ mapped_from (sym same_fields) (sym same_adapter) ∙ h'' in
        Errors.bind-eq-ok (map_fields (snapshot torch codec f) d) a.decode_fields h3

    pub custom_carried :
        IsRegistry codec
        → (x : X) (m : Value X) (s t : Packing X) (bs : List (Value X)) → Fields torch codec P x
        → Packed torch codec s bs
        → encode_custom torch codec walk x s ≡ (ok m, t)
        → NodeCarried torch json codec decode
            (λ f. map_custom torch codec (snapshot torch codec f) x)
            s
            bs
            t
            m
    unfolding is_plain
    custom_carried registry x m s t bs good k h =
        let (a, d, walked, found, encoded, texts, went, same_node) =
          custom_inv torch codec walk x m s t h in
        let (p, keyed) = good a d found encoded in
        let inner = c (dict d) walked s t bs p k went in
        moved
          (λ m t.
            NodeCarried torch json codec decode
              (λ f. map_custom torch codec (snapshot torch codec f) x) s bs t m)
          (ap (λ m. (ok m, t)) same_node)
          (record {
            table = inner.table;
            grows = inner.grows;
            packed = inner.packed;
            decodes = λ buffers f b y g.
                let (e, mapped, built) = custom_mapped f x a d b found encoded g in
                custom_read buffers a walked b e s.elements t.elements
                  ((registry.class_found (torch.class_of x) a found).1)
                  (inner.decodes buffers (suc f) (dict e) y
                    (fields_snapshot f d e keyed texts mapped))
                  built;
            is_plain_json = ground (arith, inner.is_plain_json);
          })
