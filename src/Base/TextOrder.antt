-- ===== src/Base/TextOrder.antt =====
-- The order by which texts are sorted: by code points from the left. (The source compares UTF-16
-- units, which differs only where a surrogate pair meets a character above U+D7FF.)
use Prim.Native.Char.{Char, code}
use Prim.Native.String.{String}
use mathlib.Core.Path.{◌≡◌, refl, ap₂, subst}
use mathlib.Core.Logic.{inl, inr}
use mathlib.Core.Bool.{Bool, true, false}
use native.Mathlib.Omega.{arith}
use text.Mathlib.TextEquality.{Char-path}
use map_data_aggregation_enh.Base.Tests.{ltb, Bool-cases, if◌then◌else◌}

unfoldable pub text_lt : String → String → Bool
text_lt String.[] String.[] = false
text_lt String.[] (String.◌∷◌ d t) = true
text_lt (String.◌∷◌ c s) String.[] = false
text_lt (String.◌∷◌ c s) (String.◌∷◌ d t) =
    let rest = text_lt s t in
    if ltb (code c) (code d) then true else if ltb (code d) (code c) then false else rest

pub text_lt_irrefl : (s : String) → text_lt s s ≡ false
unfolding text_lt
text_lt_irrefl String.[] = refl
text_lt_irrefl (String.◌∷◌ c s) = ground (arith, text_lt_irrefl s)

pub text_lt_asymm : (s t : String) → text_lt s t ≡ true → text_lt t s ≡ false
unfolding text_lt
text_lt_asymm String.[] String.[] h = cc
text_lt_asymm String.[] (String.◌∷◌ d t) h = refl
text_lt_asymm (String.◌∷◌ c s) String.[] h = cc
text_lt_asymm (String.◌∷◌ c s) (String.◌∷◌ d t) h = ground (arith, text_lt_asymm s t)

pub text_lt_trans : (s t u : String) → text_lt s t ≡ true → text_lt t u ≡ true → text_lt s u ≡ true
unfolding text_lt
text_lt_trans String.[] String.[] u h k = cc
text_lt_trans String.[] (String.◌∷◌ d t) String.[] h k = cc
text_lt_trans String.[] (String.◌∷◌ d t) (String.◌∷◌ e u) h k = refl
text_lt_trans (String.◌∷◌ c s) String.[] u h k = cc
text_lt_trans (String.◌∷◌ c s) (String.◌∷◌ d t) String.[] h k = cc
text_lt_trans (String.◌∷◌ c s) (String.◌∷◌ d t) (String.◌∷◌ e u) h k =
    ground (arith, text_lt_trans s t u)

cons_path : (c d : Char) (s t : String) → code c ≡ code d → s ≡ t → String.◌∷◌ c s ≡ String.◌∷◌ d t
cons_path c d s t e f = ap₂ (λ x y. String.◌∷◌ x y) (Char-path c d e) f

pub text_lt_total : (s t : String) → text_lt s t ≡ false → text_lt t s ≡ false → s ≡ t
unfolding text_lt
text_lt_total String.[] String.[] h k = refl
text_lt_total String.[] (String.◌∷◌ d t) h k = cc
text_lt_total (String.◌∷◌ c s) String.[] h k = cc
text_lt_total (String.◌∷◌ c s) (String.◌∷◌ d t) h k =
    cons_path c d s t (ground arith) (text_lt_total s t (ground arith) (ground arith))

-- What is not above a text below another is below that other too.
pub text_lt_of_not :
    (s t u : String) → text_lt s t ≡ false → text_lt s u ≡ true → text_lt t u ≡ true
text_lt_of_not s t u h k = elim (Bool-cases (text_lt t s)) [
  | inl below ↦ text_lt_trans t s u below k
  | inr same ↦ subst (λ x. text_lt x u ≡ true) (text_lt_total s t h same) k
]
