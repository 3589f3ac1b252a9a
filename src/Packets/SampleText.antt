-- ===== src/Packets/SampleText.antt =====
-- A text form for the tests that gives every plain value back: a program in postfix form, of pairs of
-- an operation and a number, and the machine that runs it on a stack.
use Prim.Native.Char.{Char, char, code, IsLt, IsScalar}
use Prim.Native.Nat.{Ordering, compare as compare_ℕ}
use freethreaded_dataplane.Common.{
  ℕ, ◌≡◌, refl, ap, ◌∙◌, Bool, true, false, ◌&&◌, Option, none, some, List, [], ◌∷◌, String, ◌==◌,
  is_none, get_elem?,
}
use freethreaded_dataplane.Common.Int.{pos, negsuc}
use freethreaded_dataplane.Python.{
  Value, Values, Entries, null, bool, int, float, str, list, dict, nil, cons, end, entry, get_field,
}
use freethreaded_dataplane.Packets.Torch.{JsonText}
use freethreaded_dataplane.Packets.Plain.{IsJsonText, is_plain, all_plain, plain_entries}

-- `IsScalar n` of the three comparisons that it makes.
abbrev Both : Ordering → Ordering → Type 0
Both Ordering.lt o = IsLt o
Both Ordering.eq o = ⊥
Both Ordering.gt o = ⊥

abbrev Scalar : Ordering → Ordering → Ordering → Type 0
Scalar Ordering.lt p q = Unit
Scalar Ordering.eq p q = Both p q
Scalar Ordering.gt p q = Both p q

abbrev decide_both : (p q : Ordering) → Option (Both p q)
decide_both Ordering.lt Ordering.lt = some tt
decide_both _ _ = none

abbrev decide_scalar : (o p q : Ordering) → Option (Scalar o p q)
decide_scalar Ordering.lt p q = some tt
decide_scalar Ordering.eq p q = decide_both p q
decide_scalar Ordering.gt p q = decide_both p q

both_decided : (p q : Ordering) (h : Both p q) → decide_both p q ≡ some h
both_decided Ordering.lt Ordering.lt h = refl
both_decided Ordering.lt Ordering.eq h = absurd h
both_decided Ordering.lt Ordering.gt h = absurd h
both_decided Ordering.eq q h = absurd h
both_decided Ordering.gt q h = absurd h

scalar_decided : (o p q : Ordering) (h : Scalar o p q) → decide_scalar o p q ≡ some h
scalar_decided Ordering.lt p q h = refl
scalar_decided Ordering.eq p q h = both_decided p q h
scalar_decided Ordering.gt p q h = both_decided p q h

-- The character with a number, if it is a Unicode Scalar value.
abbrev char_from : (n : ℕ) → Option (IsScalar n) → Option Char
char_from n none = none
char_from n (some h) = some (char n h)

unfoldable char_of : ℕ → Option Char
char_of n =
    char_from n (decide_scalar (compare_ℕ n 55296) (compare_ℕ 57343 n) (compare_ℕ n 1114112))

char_of-code : (c : Char) → char_of (code c) ≡ some c
unfolding char_of
char_of-code (char n h) =
    ap (char_from n)
      (scalar_decided (compare_ℕ n 55296) (compare_ℕ 57343 n) (compare_ℕ n 1114112) h)

pub data Op : Type 0 where
  null_op bool_op pos_op negsuc_op float_op empty_op char_op : Op
  str_op nil_op cons_op list_op end_op entry_op dict_op : Op

abbrev pub operations : List Op
operations =
    null_op ∷ bool_op ∷ pos_op ∷ negsuc_op ∷ float_op ∷ empty_op ∷ char_op ∷ str_op ∷ nil_op
    ∷ cons_op ∷ list_op ∷ end_op ∷ entry_op ∷ dict_op ∷ []

pub data Item (X : Type 0) : Type 0 where
  of_value : Value X → Item X
  of_values : Values X → Item X
  of_entries : Entries X → Item X
  of_text : String → Item X

-- The program that pushes a text, and a value, and goes on with `rest`.
unfoldable write_text : String → List ℕ → List ℕ
write_text String.[] rest = 5 ∷ 0 ∷ rest
write_text (String.◌∷◌ c s) rest = write_text s (6 ∷ code c ∷ rest)

abbrev write_bool : Bool → ℕ
write_bool true = 1
write_bool false = 0

both_true : (a b : Bool) → a && b ≡ true → (a ≡ true) × (b ≡ true)
both_true true b h = (refl, h)
both_true false b h = cc

module _ {X : Type 0} where
  abbrev push_char : Option Char → String → List (Item X) → Option (List (Item X))
  push_char none s st = none
  push_char (some c) s st = some (of_text (String.◌∷◌ c s) ∷ st)

  -- One operation with its number.
  unfoldable pub step : Op → ℕ → List (Item X) → Option (List (Item X))
  unfolding char_of
  step null_op n st = some (of_value null ∷ st)
  step bool_op n st = some (of_value (bool (n == 1)) ∷ st)
  step pos_op n st = some (of_value (int (pos n)) ∷ st)
  step negsuc_op n st = some (of_value (int (negsuc n)) ∷ st)
  step float_op n st = some (of_value (float n) ∷ st)
  step empty_op n st = some (of_text "" ∷ st)
  step char_op n (of_text s ∷ st) = push_char (char_of n) s st
  step str_op n (of_text s ∷ st) = some (of_value (str s) ∷ st)
  step nil_op n st = some (of_values nil ∷ st)
  step cons_op n (of_value v ∷ of_values vs ∷ st) = some (of_values (cons v vs) ∷ st)
  step list_op n (of_values vs ∷ st) = some (of_value (list vs) ∷ st)
  step end_op n st = some (of_entries end ∷ st)
  step entry_op n (of_value k ∷ of_value v ∷ of_entries d ∷ st) =
      some (of_entries (entry k v d) ∷ st)
  step dict_op n (of_entries d ∷ st) = some (of_value (dict d) ∷ st)
  step _ _ _ = none

  unfoldable pub run : List ℕ → List (Item X) → Option (List (Item X))
  unfolding step
  run [] st = some st
  run (o ∷ []) st = none
  run (o ∷ n ∷ rest) st = elim (get_elem? operations o) [
    | none ↦ none
    | some op ↦ elim (step op n st) [ none ↦ none | some after ↦ run rest after ]
  ]

  unfoldable mutual
    unfolding write_text

    pub write : Value X → List ℕ → List ℕ
    write null rest = 0 ∷ 0 ∷ rest
    write (bool b) rest = 1 ∷ write_bool b ∷ rest
    write (int (pos n)) rest = 2 ∷ n ∷ rest
    write (int (negsuc n)) rest = 3 ∷ n ∷ rest
    write (float n) rest = 4 ∷ n ∷ rest
    write (str s) rest = write_text s (7 ∷ 0 ∷ rest)
    write (list vs) rest = write_all vs (10 ∷ 0 ∷ rest)
    write (dict d) rest = write_entries d (13 ∷ 0 ∷ rest)
    write _ rest = 14 ∷ 0 ∷ rest

    write_all : Values X → List ℕ → List ℕ
    write_all nil rest = 8 ∷ 0 ∷ rest
    write_all (cons v vs) rest = write_all vs (write v (9 ∷ 0 ∷ rest))

    write_entries : Entries X → List ℕ → List ℕ
    write_entries end rest = 11 ∷ 0 ∷ rest
    write_entries (entry k v d) rest = write_entries d (write v (write k (12 ∷ 0 ∷ rest)))

  text_run :
      (s : String) (rest : List ℕ) (st : List (Item X))
      → run (write_text s rest) st ≡ run rest (of_text s ∷ st)
  unfolding run write_text
  text_run String.[] rest st = refl
  text_run (String.◌∷◌ c s) rest st =
      text_run s (6 ∷ code c ∷ rest) st
      ∙ ap
          (λ o. elim (push_char o s st) as (λ x. Option (List (Item X))) [
            | none ↦ none
            | some after ↦ run rest after
          ])
          (char_of-code c)

  mutual
    unfolding run write is_plain

    value_run :
        (v : Value X) (rest : List ℕ) (st : List (Item X))
        → is_plain v ≡ true
        → run (write v rest) st ≡ run rest (of_value v ∷ st)
    value_run null rest st h = refl
    value_run (bool true) rest st h = refl
    value_run (bool false) rest st h = refl
    value_run (int (pos n)) rest st h = refl
    value_run (int (negsuc n)) rest st h = refl
    value_run (float n) rest st h = refl
    value_run (str s) rest st h = text_run s (7 ∷ 0 ∷ rest) st
    value_run (list vs) rest st h = values_run vs (10 ∷ 0 ∷ rest) st h
    value_run (dict d) rest st h = entries_run d (13 ∷ 0 ∷ rest) st h
    value_run _ rest st h = cc

    values_run :
        (vs : Values X) (rest : List ℕ) (st : List (Item X))
        → all_plain vs ≡ true
        → run (write_all vs rest) st ≡ run rest (of_values vs ∷ st)
    values_run nil rest st h = refl
    values_run (cons v vs) rest st h =
        let (one, more) = both_true (is_plain v) (all_plain vs) h in
        values_run vs (write v (9 ∷ 0 ∷ rest)) st more
        ∙ value_run v (9 ∷ 0 ∷ rest) (of_values vs ∷ st) one

    entries_run :
        (d : Entries X) (rest : List ℕ) (st : List (Item X))
        → plain_entries d ≡ true
        → run (write_entries d rest) st ≡ run rest (of_entries d ∷ st)
    entries_run end rest st h = refl
    entries_run (entry (str k) v d) rest st h =
        let (once, items) = both_true (is_none (get_field k d)) (is_plain v && plain_entries d) h in
        let (one, more) = both_true (is_plain v) (plain_entries d) items in
        entries_run d (write v (write (str k) (12 ∷ 0 ∷ rest))) st more
        ∙ value_run v (write (str k) (12 ∷ 0 ∷ rest)) (of_entries d ∷ st) one
        ∙ text_run k (7 ∷ 0 ∷ 12 ∷ 0 ∷ rest) (of_value v ∷ of_entries d ∷ st)
    entries_run (entry _ v d) rest st h = cc

  abbrev pub the_value : Option (List (Item X)) → Option (Value X)
  the_value (some (of_value v ∷ [])) = some v
  the_value _ = none

  -- No integer that the tests read as a float is too large.
  abbrev pub sample_text : JsonText X
  sample_text = record {
    dumps = λ v. write v [];
    loads = λ text. the_value (run text []);
    float_of = λ z. none;
  }

  pub sample_text-IsJsonText : IsJsonText sample_text
  unfolding run
  sample_text-IsJsonText = record { reads_back = λ v h. ap the_value (value_run v [] [] h) }
