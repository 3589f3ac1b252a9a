-- ===== src/Framing/Frames.antt =====
-- The frame that `DomainRpcSerializer` writes, and the payloads that have its header.
use mathlib.Core.Path.{ap₂}
use freethreaded_dataplane.Common.{
  ℕ, ◌+◌, ◌≡◌, ◌≤◌, ◌<◌, refl, sym, ap, subst, ◌∙◌, List, ◌∷◌, ◌++◌, length, take, drop, arith,
  take-drop, drop_add, take-append, drop-append, length-append, length-take, length-drop,
}
use freethreaded_dataplane.Framing.Header.{
  header_size, schema_version, magic, length_limit, big_endian, length-big_endian, counted_back,
  big_endian-length, AreBytes, take-AreBytes, drop-AreBytes, read_bounded, first-drop, first, read,
}

-- The frame of metadata and raw bytes.
abbrev pub layout : List ℕ → List ℕ → List ℕ
layout metadata raw =
    magic ++ (schema_version ∷ (big_endian 8 (length metadata) ++ (metadata ++ raw)))

-- Eight bytes and what follows them.
pub header_parts :
    (bytes rest : List ℕ)
    → length bytes ≡ 8
    → (take 8 (bytes ++ rest) ≡ bytes) × (drop 8 (bytes ++ rest) ≡ rest)
header_parts bytes rest e =
    subst (λ n. (take n (bytes ++ rest) ≡ bytes) × (drop n (bytes ++ rest) ≡ rest)) e
      (take-append bytes rest, drop-append bytes rest)

-- A payload with the header of `n` bytes of metadata, and no shorter than that.
pub record HasHeader (payload : List ℕ) (n : ℕ) : Type 0 where
  pub long : header_size ≤ length payload
  pub start : take 4 payload ≡ magic
  pub version : first (drop 4 payload) ≡ schema_version
  pub count : read 0 (take 8 (drop 5 payload)) ≡ n
  pub complete : header_size + n ≤ length payload

pub layout-HasHeader :
    (m raw : List ℕ) → length m < length_limit → HasHeader (layout m raw) (length m)
layout-HasHeader m raw h =
    let width = length-big_endian 8 (length m) in
    let parts = header_parts (big_endian 8 (length m)) (m ++ raw) width in
    let size = length-append (big_endian 8 (length m)) (m ++ raw) in
    let body = length-append m raw in
    record {
      long = omega (arith, size, width);
      start = refl;
      version = refl;
      count = ap (read 0) parts.0 ∙ counted_back (length m) h;
      complete = omega (arith, size, width, body);
    }

-- Such a payload is a frame.
module _ (payload : List ℕ) (n : ℕ) (b : AreBytes payload) (h : HasHeader payload n) where
  eight : length (take 8 (drop 5 payload)) ≡ 8
  eight = omega (arith, length-take 8 (drop 5 payload), length-drop 5 payload, h.long)

  counted_AreBytes : AreBytes (take 8 (drop 5 payload))
  counted_AreBytes = take-AreBytes 8 (drop 5 payload) (drop-AreBytes 5 payload b)

  pub count_bounded : n < length_limit
  count_bounded =
      subst (λ k. k < length_limit) h.count
        (read_bounded (take 8 (drop 5 payload)) counted_AreBytes eight)

  pub length-metadata : length (take n (drop header_size payload)) ≡ n
  length-metadata =
      omega (
        arith,
        length-take n (drop header_size payload),
        length-drop header_size payload,
        h.complete,
      )

  count_written : take 8 (drop 5 payload) ≡ big_endian 8 n
  count_written =
      sym (big_endian-length (take 8 (drop 5 payload)) counted_AreBytes eight)
      ∙ ap (big_endian 8) h.count

  pub is_layout :
      payload ≡ layout (take n (drop header_size payload)) (drop (header_size + n) payload)
  is_layout =
      let m = take n (drop header_size payload) in
      let raw = drop (header_size + n) payload in
      let body : m ++ raw ≡ drop header_size payload =
        ap (λ r. m ++ r) (drop_add header_size n payload)
        ∙ take-drop n (drop header_size payload) in
      let counted : take 8 (drop 5 payload) ++ drop header_size payload ≡ drop 5 payload =
        ap (λ r. take 8 (drop 5 payload) ++ r) (drop_add 5 8 payload)
        ∙ take-drop 8 (drop 5 payload) in
      let four : 4 < length payload = omega (arith, h.long) in
      let counts : big_endian 8 (length m) ≡ take 8 (drop 5 payload) =
        ap (big_endian 8) length-metadata ∙ sym count_written in
      let tail : big_endian 8 (length m) ++ (m ++ raw) ≡ drop 5 payload =
        ap₂ ◌++◌ counts body ∙ counted in
      let rest : schema_version ∷ drop 5 payload ≡ drop 4 payload =
        ap (λ v. v ∷ drop 5 payload) (sym h.version) ∙ sym (first-drop 4 payload four) in
      let whole : magic ++ drop 4 payload ≡ payload =
        ap (λ start. start ++ drop 4 payload) (sym h.start) ∙ take-drop 4 payload in
      sym (ap (λ r. magic ++ (schema_version ∷ r)) tail ∙ ap (λ r. magic ++ r) rest ∙ whole)
