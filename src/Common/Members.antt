-- ===== src/Common/Members.antt =====
-- A Python `set` of texts, as a list in which no text stands twice.
use freethreaded_dataplane.Common.{◌≡◌, refl, Bool, true, false, List, [], ◌∷◌, String, arith, ite}
use freethreaded_dataplane.Common.Text.{text_discrete}

-- `s in xs`
unfoldable pub member : String → List String → Bool
unfolding text_discrete
member s [] = false
member s (x ∷ xs) = ite (text_discrete s x) true (member s xs)

-- `xs.add(s)`, for an `s` that is not in `xs`
unfoldable pub include : String → List String → List String
include s xs = s ∷ xs

-- `xs.discard(s)`
unfoldable pub discard : String → List String → List String
unfolding text_discrete
discard s [] = []
discard s (x ∷ xs) = ite (text_discrete s x) (discard s xs) (x ∷ discard s xs)

pub member-include :
    (s t : String) (xs : List String)
    → member s (include t xs) ≡ ite (text_discrete s t) true (member s xs)
unfolding member include
member-include s t xs = refl

pub member-discard :
    (s t : String) (xs : List String)
    → member s (discard t xs) ≡ ite (text_discrete s t) false (member s xs)
unfolding member discard
member-discard s t [] = ground arith
member-discard s t (x ∷ xs) = ground (arith, member-discard s t xs)
