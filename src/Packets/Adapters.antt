-- ===== src/Packets/Adapters.antt =====
-- The tables of adapters, and what `register_adapter` and the constructor do to them.
use freethreaded_dataplane.Common.{
  ◌≡◌, refl, sym, ap, subst, ◌∙◌, Bool, true, false, not, ◌||◌, Option, none, some, List, [], ◌∷◌,
  String, is_none, inl, inr,
}
use freethreaded_dataplane.Common.Text.{◌<>◌, is_empty}
use freethreaded_dataplane.Common.Dict.{
  lookup, insert, lookup_of_insert, lookup_inserted, lookup-insert_new,
}
use freethreaded_dataplane.Errors
use freethreaded_dataplane.Errors.{Exception, Result, ok, err, exception, value_error}
use freethreaded_dataplane.Types.Limits.{Limits}
use freethreaded_dataplane.Packets.Registry.{
  TypeAdapter, PacketCodec, register_adapter, register_all, init, IsRegistry,
}

none_of : {A : Type 0} (o : Option A) → not (is_none o) ≡ false → o ≡ none
none_of none h = refl
none_of (some a) h = cc

neither :
    {A : Type 0} (b : Bool) (o : Option A) → b || not (is_none o) ≡ false → (b ≡ false) × (o ≡ none)
neither true o h = cc
neither false o h = (refl, none_of o h)

module _ {X : Type 0} where
  abbrev registered : TypeAdapter X → PacketCodec X → PacketCodec X
  registered a codec = record codec {
    by_tag = insert a.tag a codec.by_tag;
    by_type = insert a.python_type a codec.by_type;
  }

  register_inv :
      (repr : String → String) (a : TypeAdapter X) (codec more : PacketCodec X)
      → register_adapter repr a codec ≡ ok more
      → (is_empty a.tag ≡ false)
        × (lookup a.tag codec.by_tag ≡ none)
        × (lookup a.python_type codec.by_type ≡ none)
        × (registered a codec ≡ more)
  unfolding register_adapter
  register_inv repr a codec more h =
      let finish : Result (PacketCodec X) = ok (registered a codec) in
      let (fresh_tag, h') =
        Errors.guard_inv (is_empty a.tag || not (is_none (lookup a.tag codec.by_tag)))
          (exception value_error ("duplicate or empty adapter tag: " <> repr a.tag)) _ h in
      let (fresh_type, h'') =
        Errors.guard_inv (not (is_none (lookup a.python_type codec.by_type)))
          (exception value_error ("duplicate adapter type: " <> repr a.python_type)) finish h' in
      let (named, absent) = neither (is_empty a.tag) (lookup a.tag codec.by_tag) fresh_tag in
      (named, absent, none_of (lookup a.python_type codec.by_type) fresh_type, cc)

  registered-IsRegistry :
      (a : TypeAdapter X) (codec : PacketCodec X)
      → IsRegistry codec
      → is_empty a.tag ≡ false
      → lookup a.tag codec.by_tag ≡ none
      → lookup a.python_type codec.by_type ≡ none
      → IsRegistry (registered a codec)
  registered-IsRegistry a codec good named fresh_tag fresh_type = record {
    class_found = λ c b found. elim (lookup_of_insert c a.python_type a b codec.by_type found) [
      | inl (same_class, same_adapter) ↦
          subst (λ b. (b.python_type ≡ c) × (lookup b.tag (insert a.tag a codec.by_tag) ≡ some b))
            same_adapter (sym same_class, lookup_inserted a.tag a codec.by_tag)
      | inr there ↦
          let (own, tagged) = good.class_found c b there in
          (own, lookup-insert_new b.tag a.tag a b codec.by_tag fresh_tag tagged)
    ];
    tag_found = λ t b found. elim (lookup_of_insert t a.tag a b codec.by_tag found) [
      | inl (same_tag, same_adapter) ↦
          subst
            (λ b.
              (b.tag ≡ t)
              × (is_empty t ≡ false)
              × (lookup b.python_type (insert a.python_type a codec.by_type) ≡ some b))
            same_adapter
            (
              sym same_tag,
              ap is_empty same_tag ∙ named,
              lookup_inserted a.python_type a codec.by_type,
            )
      | inr there ↦
          let (own, text, classed) = good.tag_found t b there in
          (
            own,
            text,
            lookup-insert_new b.python_type a.python_type a b codec.by_type fresh_type classed,
          )
    ];
  }

  pub register_adapter-IsRegistry :
      (repr : String → String) (a : TypeAdapter X) (codec more : PacketCodec X)
      → IsRegistry codec
      → register_adapter repr a codec ≡ ok more
      → IsRegistry more
  register_adapter-IsRegistry repr a codec more good h =
      let (named, fresh_tag, fresh_type, same_codec) = register_inv repr a codec more h in
      subst (λ c. IsRegistry c) same_codec
        (registered-IsRegistry a codec good named fresh_tag fresh_type)

  -- Both tables lead to every adapter of a list.
  abbrev pub HasAll : List (TypeAdapter X) → PacketCodec X → Type 0
  HasAll [] codec = Unit {0}
  HasAll (a ∷ adapters) codec =
      (lookup a.tag codec.by_tag ≡ some a)
      × (lookup a.python_type codec.by_type ≡ some a)
      × HasAll adapters codec

  -- Adding adapters leaves those that are there, and the limits.
  abbrev Grows : PacketCodec X → PacketCodec X → Type 0
  Grows codec more =
      ((t : String) (a : TypeAdapter X)
        → lookup t codec.by_tag ≡ some a
        → lookup t more.by_tag ≡ some a)
      × ((c : String) (a : TypeAdapter X)
          → lookup c codec.by_type ≡ some a
          → lookup c more.by_type ≡ some a)
      × (more.limits ≡ codec.limits)

  register_all_lem :
      (repr : String → String) (adapters : List (TypeAdapter X)) (codec more : PacketCodec X)
      → IsRegistry codec
      → register_all repr adapters codec ≡ ok more
      → IsRegistry more × HasAll adapters more × Grows codec more
  unfolding register_all
  register_all_lem repr [] codec more good h =
      let same_codec : codec ≡ more = cc in
      subst (λ c. IsRegistry c × HasAll [] c × Grows codec c) same_codec
        (good, tt, ((λ t a h. h), (λ c a h. h), refl))
  register_all_lem repr (a ∷ adapters) codec more good h =
      let (next, first, h') =
        Errors.bind-eq-ok (register_adapter repr a codec) (λ next. register_all repr adapters next)
          h in
      let (named, fresh_tag, fresh_type, same_codec) = register_inv repr a codec next first in
      let step : Grows codec next = subst (Grows codec) same_codec (
        (λ t b h. lookup-insert_new t a.tag a b codec.by_tag fresh_tag h),
        (λ c b h. lookup-insert_new c a.python_type a b codec.by_type fresh_type h),
        refl,
      ) in
      let (tag_there, class_there) : (lookup a.tag next.by_tag ≡ some a)
          × (lookup a.python_type next.by_type ≡ some a) =
        subst (λ c. (lookup a.tag c.by_tag ≡ some a) × (lookup a.python_type c.by_type ≡ some a))
          same_codec
          (lookup_inserted a.tag a codec.by_tag, lookup_inserted a.python_type a codec.by_type) in
      let (kept, all_there, grown) =
        register_all_lem repr adapters next more
          (register_adapter-IsRegistry repr a codec next good first) h' in
      (
        kept,
        (grown.0 a.tag a tag_there, grown.1 a.python_type a class_there, all_there),
        (
          (λ t b h. grown.0 t b (step.0 t b h)),
          (λ c b h. grown.1 c b (step.1 c b h)),
          grown.2 ∙ step.2,
        ),
      )

  -- In a codec that was constructed with a list of adapters the two tables hold the same adapters, each
  -- under its own tag, which is not empty, and its own class; both lead to every adapter of the list; and
  -- the limits are those given.
  pub init_lem :
      (repr : String → String) (limits : Limits) (adapters : List (TypeAdapter X))
      (codec : PacketCodec X)
      → init repr limits adapters ≡ ok codec
      → IsRegistry codec × HasAll adapters codec × (codec.limits ≡ limits)
  unfolding init lookup
  init_lem repr limits adapters codec h =
      let none_yet : IsRegistry (record { limits = limits; by_tag = []; by_type = [] }) = record {
        class_found = λ c a h. cc;
        tag_found = λ t a h. cc;
      } in
      let (good, all_there, grown) = register_all_lem repr adapters _ codec none_yet h in
      (good, all_there, grown.2)
