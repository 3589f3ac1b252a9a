-- ===== src/Packets/Table.antt =====
-- The table of raw buffers that `encode` has written so far, and what `decode` reads from it.
use mathlib.Core.List.{append_assoc, append-nil}
use freethreaded_dataplane.Common.{
  ℕ, zero, suc, ◌+◌, ◌≤◌, ◌≡◌, refl, sym, ap, subst, ◌∙◌, true, some, List, [], ◌∷◌, ◌++◌, String,
  length, take, drop, get_elem?, ltb, leb, inl, inr, arith, Bool-cases, length-append, take-append,
  drop-append,
}
use freethreaded_dataplane.Errors.{ok}
use freethreaded_dataplane.Exec.{bind_ok, bind_inv}
use freethreaded_dataplane.Python.{Value, values}
use freethreaded_dataplane.Framing.{join}
use freethreaded_dataplane.Packets.Torch.{Torch}
use freethreaded_dataplane.Packets.Registry.{PacketCodec, max_tensor_bytes, max_tensor_count}
use freethreaded_dataplane.Packets.Encode.{Packing, unpacked, store}
use freethreaded_dataplane.Packets.Descriptors.{Reading, read_descriptor, read_table}
use freethreaded_dataplane.Packets.Plain.{is_plain, all_plain, all_plain-append}

module _ {X : Type 0} where
  -- Every buffer of `bs` stands in `cs`, where it stood.
  abbrev pub Extends : List (Value X) → List (Value X) → Type 0
  Extends cs bs = (i : ℕ) (b : Value X) → get_elem? bs i ≡ some b → get_elem? cs i ≡ some b

  pub append-Extends : (bs : List (Value X)) (b : Value X) → Extends (bs ++ (b ∷ [])) bs
  append-Extends [] b i c h = cc
  append-Extends (a ∷ bs) b zero c h = h
  append-Extends (a ∷ bs) b (suc i) c h = append-Extends bs b i c h

  pub get_elem?-last :
      (bs : List (Value X)) (b : Value X) → get_elem? (bs ++ (b ∷ [])) (length bs) ≡ some b
  get_elem?-last [] b = refl
  get_elem?-last (a ∷ bs) b = get_elem?-last bs b

pub join-append : (cs : List (List ℕ)) (c : List ℕ) → join (cs ++ (c ∷ [])) ≡ join cs ++ c
unfolding join
join-append [] c = append-nil c
join-append (b ∷ cs) c = ap (λ r. b ++ r) (join-append cs c) ∙ sym (append_assoc b (join cs) c)

abbrev pub start : {X : Type 0} → Reading X
start = record { previous_end = 0; buffers = [] }

module _ {X : Type 0} (torch : Torch X) (codec : PacketCodec X) where
  table_snoc :
      (raw : List ℕ) (ds : List (Value X)) (d : Value X) (s r r' : Reading X)
      → read_table torch codec raw (values ds) s ≡ (ok tt, r)
      → read_descriptor torch codec raw d r ≡ (ok tt, r')
      → read_table torch codec raw (values (ds ++ (d ∷ []))) s ≡ (ok tt, r')
  unfolding read_table
  table_snoc raw [] d s r r' h e = let same_start : s ≡ r = cc in ground (arith, e)
  table_snoc raw (c ∷ ds) d s r r' h e =
      let (u, s', first, later) =
        bind_inv (read_descriptor torch codec raw c) (λ u. read_table torch codec raw (values ds))
          h in
      bind_ok (read_descriptor torch codec raw c)
        (λ u. read_table torch codec raw (values (ds ++ (d ∷ [])))) first
      ∙ table_snoc raw ds d s' r r' later e

  -- The chunks and descriptors so far describe the buffers `bs`, whatever bytes follow, and are
  -- within the limits.
  pub record Packed (p : Packing X) (bs : List (Value X)) : Type 0 where
    pub sized : p.offset ≡ length (join p.chunks)
    pub counted : length p.descriptors ≡ length bs
    pub few : length p.descriptors ≤ max_tensor_count codec
    pub small : p.offset ≤ max_tensor_bytes codec
    pub described : all_plain (values p.descriptors) ≡ true
    pub table :
        (more : List ℕ)
        → read_table torch codec (join p.chunks ++ more) (values p.descriptors) start
          ≡ (ok tt, record { previous_end = p.offset; buffers = bs })

  pub unpacked-Packed : Packed unpacked []
  unfolding join read_table is_plain
  unpacked-Packed = record {
    sized = refl;
    counted = refl;
    few = omega arith;
    small = omega arith;
    described = refl;
    table = λ more. refl;
  }

  -- The bytes of a chunk are read back from where it was put.
  abbrev pub Reads : (ℕ → Value X) → List ℕ → Value X → Type 0
  Reads descriptor chunk b =
      (raw : List ℕ) (offset : ℕ) (bs : List (Value X))
      → take (length chunk) (drop offset raw) ≡ chunk
      → offset + length chunk ≤ length raw
      → read_descriptor torch codec raw (descriptor offset)
          (record { previous_end = offset; buffers = bs })
        ≡ (ok tt, record { previous_end = offset + length chunk; buffers = bs ++ (b ∷ []) })

  unfoldable pub stored : Packing X → (ℕ → Value X) → List ℕ → ℕ → Packing X
  stored p descriptor chunk nbytes = record p {
    descriptors = p.descriptors ++ (descriptor p.offset ∷ []);
    chunks = p.chunks ++ (chunk ∷ []);
    offset = p.offset + nbytes;
  }

  pub stored-Packed :
      (p : Packing X) (bs : List (Value X)) (descriptor : ℕ → Value X) (chunk : List ℕ)
      (b : Value X)
      → Packed p bs
      → Reads descriptor chunk b
      → ((offset : ℕ) → is_plain (descriptor offset) ≡ true)
      → p.offset + length chunk ≤ max_tensor_bytes codec
      → length p.descriptors + 1 ≤ max_tensor_count codec
      → Packed (stored p descriptor chunk (length chunk)) (bs ++ (b ∷ []))
  unfolding stored
  stored-Packed p bs descriptor chunk b k reads plain fits few =
      let chunks_joined = join-append p.chunks chunk in
      let at_end : (more : List ℕ)
          → drop p.offset (join p.chunks ++ (chunk ++ more)) ≡ chunk ++ more =
        λ more.
          subst (λ n. drop n (join p.chunks ++ (chunk ++ more)) ≡ chunk ++ more) (sym k.sized)
            (drop-append (join p.chunks) (chunk ++ more)) in
      record {
        sized =
            omega (arith, k.sized, length-append (join p.chunks) chunk, ap length chunks_joined);
        counted = omega (
          arith,
          k.counted,
          length-append p.descriptors (descriptor p.offset ∷ []),
          length-append bs (b ∷ []),
        );
        few = omega (arith, few, length-append p.descriptors (descriptor p.offset ∷ []));
        small = fits;
        described =
            all_plain-append p.descriptors (descriptor p.offset) k.described (plain p.offset);
        table = λ more.
            let raw = join p.chunks ++ (chunk ++ more) in
            let whole : join (p.chunks ++ (chunk ∷ [])) ++ more ≡ raw =
              ap (λ r. r ++ more) chunks_joined ∙ append_assoc (join p.chunks) chunk more in
            let here : take (length chunk) (drop p.offset raw) ≡ chunk =
              ap (take (length chunk)) (at_end more) ∙ take-append chunk more in
            let inside : p.offset + length chunk ≤ length raw = omega (
              arith,
              k.sized,
              length-append (join p.chunks) (chunk ++ more),
              length-append chunk more,
            ) in
            ap
              (λ r.
                read_table torch codec r (values (p.descriptors ++ (descriptor p.offset ∷ [])))
                  start)
              whole
            ∙ table_snoc raw p.descriptors (descriptor p.offset) start
                (record { previous_end = p.offset; buffers = bs }) _ (k.table (chunk ++ more))
                (reads raw p.offset bs here inside);
      }

  -- What `store` did when it did not raise.
  pub store_inv :
      (large many : String) (descriptor : ℕ → Value X) (chunk : List ℕ) (nbytes index : ℕ)
      (p t : Packing X)
      → store torch codec large many descriptor chunk nbytes p ≡ (ok index, t)
      → (index ≡ length p.descriptors)
        × (t ≡ stored p descriptor chunk nbytes)
        × (p.offset + nbytes ≤ max_tensor_bytes codec)
        × (length p.descriptors + 1 ≤ max_tensor_count codec)
  unfolding store stored
  store_inv large many descriptor chunk nbytes index p t h =
      elim (Bool-cases (ltb (max_tensor_bytes codec) (p.offset + nbytes))) [
        | inl over ↦ ground arith
        | inr fits ↦ elim (Bool-cases (leb (max_tensor_count codec) (length p.descriptors))) [
          | inl full ↦ ground arith
          | inr room ↦ ground arith
        ]
      ]
