-- ===== src/Framing/Header.antt =====
-- The header `struct.Struct("!4sBQ")` of nogil_data_plane/rpc_serializer.py: four bytes of magic, a
-- version byte and the metadata length as eight bytes, the highest first.
use freethreaded_dataplane.Common.{
  ℕ, zero, suc, ◌+◌, ◌*◌, ◌/◌, ◌%◌, ◌<◌, ◌≡◌, refl, ap, ◌∙◌, sym, subst, Bool, true, false, ◌&&◌,
  List, [], ◌∷◌, ◌++◌, String, length, take, drop, get_elem?, none, some, length-append, ltb, ◌==◌,
  if◌then◌else◌, arith,
}
use mathlib.Core.List.{append-nil, append_assoc}
use mathlib.Core.Path.{ap₂}
use freethreaded_dataplane.Common.Text.{◌<>◌}
use freethreaded_dataplane.Errors.{Result, ok, err, exception, foreign}

-- `b"NDRP"`
abbrev pub magic : List ℕ
magic = 78 ∷ 68 ∷ 82 ∷ 80 ∷ []

abbrev pub schema_version : ℕ
schema_version = 1

abbrev pub header_size : ℕ
header_size = 13

-- The lengths that eight bytes can hold are below 2 ^ 64.
abbrev pub length_limit : ℕ
length_limit = 18446744073709551616

-- `w` bytes of a number, the highest first.
unfoldable pub big_endian : ℕ → ℕ → List ℕ
big_endian zero n = []
big_endian (suc w) n = big_endian w (n / 256) ++ (n % 256 ∷ [])

-- The number that bytes stand for after those already read.
unfoldable pub read : ℕ → List ℕ → ℕ
read n [] = n
read n (b ∷ bytes) = read (n * 256 + b) bytes

unfoldable pub same_bytes : List ℕ → List ℕ → Bool
same_bytes [] [] = true
same_bytes (x ∷ xs) (y ∷ ys) = (x == y) && same_bytes xs ys
same_bytes _ _ = false

-- `HEADER.pack(MAGIC, SCHEMA_VERSION, n)`
unfoldable pub pack_header : ℕ → Result (List ℕ)
pack_header n =
    if ltb n length_limit
    then ok (magic ++ (schema_version ∷ big_endian 8 n))
    else err (exception (foreign "error") "int too large to convert")

-- The first byte of some; it is only asked of a payload that has it.
abbrev pub first : List ℕ → ℕ
first [] = 0
first (b ∷ bytes) = b

-- `HEADER.unpack(payload[:HEADER_SIZE])`, for a payload of that length at least.
unfoldable pub unpack_header : List ℕ → List ℕ × ℕ × ℕ
unfolding read
unpack_header payload = (take 4 payload, first (drop 4 payload), read 0 (take 8 (drop 5 payload)))

abbrev digits : List String
digits = "0" ∷ "1" ∷ "2" ∷ "3" ∷ "4" ∷ "5" ∷ "6" ∷ "7" ∷ "8" ∷ "9" ∷ []

abbrev pub digit : ℕ → String
digit n = elim (get_elem? digits n) [ none ↦ "" | some d ↦ d ]

-- `str` of a byte.
abbrev pub decimal : ℕ → String
decimal n =
    if ltb n 10
    then digit n
    else if ltb n 100
    then digit (n / 10) <> digit (n % 10)
    else digit (n / 100) <> digit (n / 10 % 10) <> digit (n % 10)

-- 256 ^ w
abbrev power : ℕ → ℕ
power zero = 1
power (suc w) = 256 * power w

read-append : (n b : ℕ) (bytes : List ℕ) → read n (bytes ++ (b ∷ [])) ≡ read n bytes * 256 + b
unfolding read
read-append n b [] = refl
read-append n b (c ∷ bytes) = read-append (n * 256 + c) b bytes

read-big_endian : (w n : ℕ) → n < power w → read 0 (big_endian w n) ≡ n
unfolding read big_endian
read-big_endian zero n h = omega (arith, h)
read-big_endian (suc w) n h =
    let high = read-big_endian w (n / 256) (omega (arith, h)) in
    omega (arith, high, read-append 0 (n % 256) (big_endian w (n / 256)))

pub length-big_endian : (w n : ℕ) → length (big_endian w n) ≡ w
unfolding big_endian
length-big_endian zero n = refl
length-big_endian (suc w) n =
    omega
      (arith, length-append (big_endian w (n / 256)) (n % 256 ∷ []), length-big_endian w (n / 256))

-- What eight bytes hold comes back.
pub counted_back : (n : ℕ) → n < length_limit → read 0 (big_endian 8 n) ≡ n
counted_back n h = read-big_endian 8 n h

-- Values of a byte.
abbrev pub AreBytes : List ℕ → Type 0
AreBytes [] = Unit {0}
AreBytes (b ∷ bytes) = (b < 256) × AreBytes bytes

big_endian-suc :
    (w n b : ℕ) → b < 256 → big_endian (suc w) (n * 256 + b) ≡ big_endian w n ++ (b ∷ [])
unfolding big_endian
big_endian-suc w n b h =
    let quotient : (n * 256 + b) / 256 ≡ n = omega (arith, h) in
    let remainder : (n * 256 + b) % 256 ≡ b = omega (arith, h) in
    ap₂ (λ high low. big_endian w high ++ (low ∷ [])) quotient remainder

-- Bytes read after a number are written after it.
big_endian-read :
    (w n : ℕ) (bytes : List ℕ)
    → AreBytes bytes
    → big_endian (length bytes + w) (read n bytes) ≡ big_endian w n ++ bytes
unfolding read
big_endian-read w n [] h =
    let width : 0 + w ≡ w = omega arith in
    ap (λ v. big_endian v n) width ∙ sym (append-nil (big_endian w n))
big_endian-read w n (b ∷ bytes) h =
    let width : suc (length bytes) + w ≡ length bytes + suc w = omega arith in
    let later = big_endian-read (suc w) (n * 256 + b) bytes h.1 in
    let here : big_endian (suc w) (n * 256 + b) ≡ big_endian w n ++ (b ∷ []) =
      big_endian-suc w n b h.0 in
    ap (λ v. big_endian v (read (n * 256 + b) bytes)) width
    ∙ later
    ∙ ap (λ front. front ++ bytes) here
    ∙ append_assoc (big_endian w n) (b ∷ []) bytes

pub big_endian-length :
    (bytes : List ℕ) → AreBytes bytes → length bytes ≡ 8 → big_endian 8 (read 0 bytes) ≡ bytes
unfolding big_endian
big_endian-length bytes h e =
    let width : length bytes + 0 ≡ 8 = omega (arith, e) in
    subst (λ w. big_endian w (read 0 bytes) ≡ bytes) width (big_endian-read 0 0 bytes h)

pub same_bytes_lem : (xs ys : List ℕ) → same_bytes xs ys ≡ true → xs ≡ ys
unfolding same_bytes
same_bytes_lem [] [] h = refl
same_bytes_lem (x ∷ xs) (y ∷ ys) h = ground (arith, same_bytes_lem xs ys)
same_bytes_lem [] (y ∷ ys) h = cc
same_bytes_lem (x ∷ xs) [] h = cc

-- k * 256 ^ w
abbrev shift : ℕ → ℕ → ℕ
shift k zero = k
shift k (suc w) = shift (k * 256) w

read_bound :
    (n k : ℕ) (bytes : List ℕ) → AreBytes bytes → n < k → read n bytes < shift k (length bytes)
unfolding read
read_bound n k [] h l = l
read_bound n k (b ∷ bytes) h l =
    let larger : n * 256 + b < k * 256 = omega (arith, h.0, l) in
    read_bound (n * 256 + b) (k * 256) bytes h.1 larger

-- What eight bytes stand for is a length that the header can hold.
pub read_bounded :
    (bytes : List ℕ) → AreBytes bytes → length bytes ≡ 8 → read 0 bytes < length_limit
read_bounded bytes h e =
    let one : 0 < 1 = omega arith in
    subst (λ w. read 0 bytes < shift 1 w) e (read_bound 0 1 bytes h one)

pub take-AreBytes : (n : ℕ) (bytes : List ℕ) → AreBytes bytes → AreBytes (take n bytes)
take-AreBytes zero bytes h = tt
take-AreBytes (suc n) [] h = tt
take-AreBytes (suc n) (b ∷ bytes) h = (h.0, take-AreBytes n bytes h.1)

pub drop-AreBytes : (n : ℕ) (bytes : List ℕ) → AreBytes bytes → AreBytes (drop n bytes)
drop-AreBytes zero bytes h = h
drop-AreBytes (suc n) [] h = tt
drop-AreBytes (suc n) (b ∷ bytes) h = drop-AreBytes n bytes h.1

pub first-drop :
    (n : ℕ) (bytes : List ℕ)
    → n < length bytes
    → drop n bytes ≡ first (drop n bytes) ∷ drop (suc n) bytes
first-drop zero (b ∷ bytes) h = refl
first-drop (suc n) (b ∷ bytes) h = first-drop n bytes (omega (arith, h))
first-drop zero [] h = absurd (omega (arith, h))
first-drop (suc n) [] h = absurd (omega (arith, h))
