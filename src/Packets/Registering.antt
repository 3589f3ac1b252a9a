-- ===== src/Packets/Registering.antt =====
-- What the registration of a list of dataclasses does to the tables of a codec.
use freethreaded_dataplane.Common.{◌≡◌, subst, List, [], ◌∷◌, String, inl, inr, arith}
use freethreaded_dataplane.Errors.{Result, ok, err, Result-cases}
use freethreaded_dataplane.Exec.{Action, ◌>>=◌, ◌>>◌}
use freethreaded_dataplane.Packets.Registry.{TypeAdapter, PacketCodec, IsRegistry, register_adapter}
use freethreaded_dataplane.Packets.Dataclasses.{
  Dataclasses, dataclass_adapter, register, register_classes, crown_classes,
  register_alpha_beta_crown_adapters,
}
use freethreaded_dataplane.Packets.Adapters.{register_adapter-IsRegistry}

module _ {S A B : Type 0} (I : S → Type 0) (f : A → Action S B)
    (k : (a : A) (s : S) → I s → I (f a s).1) where
  ends : (r : Result A × S) (s : S) → I r.1 → I (((λ (u : S). r) >>= f) s).1
  ends (ok a, t) s h = k a t h
  ends (err e, t) s h = h

module _ {X : Type 0} (python : Dataclasses X) where
  register-IsRegistry :
      (a : TypeAdapter X) (codec : PacketCodec X)
      → IsRegistry codec
      → IsRegistry (register python a codec).1
  unfolding register
  register-IsRegistry a codec good = elim (Result-cases (register_adapter python.repr a codec)) [
    | inl (more, done) ↦
        let after : more ≡ (register python a codec).1 = ground (arith, done) in
        subst (λ c. IsRegistry c) after
          (register_adapter-IsRegistry python.repr a codec more good done)
    | inr (exc, refused) ↦
        let after : codec ≡ (register python a codec).1 = ground (arith, refused) in
        subst (λ c. IsRegistry c) after good
  ]

  register_classes-IsRegistry :
      (classes : List (String × String)) (codec : PacketCodec X)
      → IsRegistry codec
      → IsRegistry (register_classes python classes codec).1
  unfolding register_classes
  register_classes-IsRegistry [] codec good = good
  register_classes-IsRegistry ((c, t) ∷ classes) codec good =
      ends (λ c. IsRegistry c) (λ a. register python a >> register_classes python classes)
        (λ a codec good.
          ends (λ c. IsRegistry c) (λ u. register_classes python classes)
            (λ u codec good. register_classes-IsRegistry classes codec good)
            (register python a codec) codec (register-IsRegistry a codec good))
        (dataclass_adapter python c t, codec) codec good

  -- Whether or not a class is refused, the adapters of alpha-beta-CROWN leave the two tables in step.
  crown-IsRegistry :
      (codec : PacketCodec X)
      → IsRegistry codec
      → IsRegistry (register_alpha_beta_crown_adapters python codec).1
  unfolding register_alpha_beta_crown_adapters
  crown-IsRegistry codec good = register_classes-IsRegistry crown_classes codec good
