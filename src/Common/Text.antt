-- ===== src/Common/Text.antt =====
-- Python's `str`: equality as a decision, the empty text, and the prefix `s[:n]`.
use Prim.Native.String.{String}
use text.Mathlib.Text.{◌==◌ as text_eq}
use text.Mathlib.TextEquality.{eq_iff}
use freethreaded_dataplane.Common.{ℕ, zero, suc, ◌≡◌, ◌↔◌, refl, Bool, true, false, arith, ite}
pub use Prim.Native.String.{◌++◌ as ◌<>◌}

decision : {s t : String} (b : Bool) → (b ≡ true) ↔ (s ≡ t) → Dec (s ≡ t)
decision true h = yes (h.0 refl)
decision false h = no (λ e. absurd_of (h.1 e))
  where
    absurd_of : false ≡ true → ⊥
    absurd_of p = cc

unfoldable pub text_discrete : Discrete String
unfolding decision
text_discrete s t = decision (text_eq s t) (eq_iff s t)

-- `not s`
abbrev pub is_empty : String → Bool
is_empty String.[] = true
is_empty (String.◌∷◌ c s) = false

-- `s[:n]`, which counts code points.
unfoldable pub prefix : ℕ → String → String
prefix zero s = String.[]
prefix (suc n) String.[] = String.[]
prefix (suc n) (String.◌∷◌ c s) = String.◌∷◌ c (prefix n s)

prefix_test : prefix 3 "abcde" ≡ "abc"
unfolding prefix
prefix_test = refl

-- `s == t`
unfoldable pub same : String → String → Bool
unfolding text_discrete
same s t = ite (text_discrete s t) true false

pub same_iff : (s t : String) → (same s t ≡ true) ↔ (s ≡ t)
unfolding same
same_iff s t = ground arith
