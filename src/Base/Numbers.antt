-- ===== src/Base/Numbers.antt =====
-- The numbers of the source language, as far as the program meets them: integers of either sign
-- and NaN. Integers are exact. Where a double would round, beyond 2 ^ 53, the program has already
-- rejected the value by `Number.isSafeInteger`; fractions and infinities are left out.
use Prim.Native.Nat.{ℕ, suc, ◌+◌, ◌-◌, ◌*◌, ◌<◌}
use mathlib.Core.Path.{◌≡◌, refl, ap}
use mathlib.Core.Bool.{Bool, true, false, not, ◌||◌}
use native.Mathlib.Omega.{arith}
use map_data_aggregation_enh.Base.Tests.{ltb, leb, eqb, if◌then◌else◌}

-- `neg n` is -(n + 1).
pub data Num : Type 0 where
  nat : ℕ → Num
  neg : ℕ → Num
  nan : Num

-- `Number.isSafeInteger`
abbrev pub is_safe_integer : Num → Bool
is_safe_integer (nat n) = ltb n 9007199254740992
is_safe_integer (neg n) = ltb n 9007199254740991
is_safe_integer nan = false

-- `a < b`, which is false as soon as one side is NaN.
abbrev pub lt : Num → Num → Bool
lt (nat a) (nat b) = ltb a b
lt (nat a) (neg b) = false
lt (neg a) (nat b) = true
lt (neg a) (neg b) = ltb b a
lt nan b = false
lt (nat a) nan = false
lt (neg a) nan = false

-- `a === b`
abbrev pub num_eq : Num → Num → Bool
num_eq (nat a) (nat b) = eqb a b
num_eq (neg a) (neg b) = eqb a b
num_eq _ _ = false

-- a - b, of two natural numbers.
abbrev pub sub_ℕ : ℕ → ℕ → Num
sub_ℕ a b = if leb b a then nat (a - b) else neg (b - a - 1)

abbrev pub add : Num → Num → Num
add (nat a) (nat b) = nat (a + b)
add (nat a) (neg b) = sub_ℕ a (suc b)
add (neg a) (nat b) = sub_ℕ b (suc a)
add (neg a) (neg b) = neg (a + b + 1)
add nan b = nan
add (nat a) nan = nan
add (neg a) nan = nan

abbrev pub sub : Num → Num → Num
sub (nat a) (nat b) = sub_ℕ a b
sub (nat a) (neg b) = nat (a + b + 1)
sub (neg a) (nat b) = neg (a + b)
sub (neg a) (neg b) = sub_ℕ b a
sub nan b = nan
sub (nat a) nan = nan
sub (neg a) nan = nan

-- `Math.max` of two, which is NaN as soon as one is.
abbrev pub max : Num → Num → Num
max nan b = nan
max (nat a) nan = nan
max (neg a) nan = nan
max (nat a) (nat b) = if ltb a b then nat b else nat a
max (nat a) (neg b) = nat a
max (neg a) (nat b) = nat b
max (neg a) (neg b) = if ltb a b then neg a else neg b

-- `Math.min` of two, and a value times a positive factor.
abbrev pub min : Num → Num → Num
min nan b = nan
min (nat a) nan = nan
min (neg a) nan = nan
min (nat a) (nat b) = if ltb b a then nat b else nat a
min (nat a) (neg b) = neg b
min (neg a) (nat b) = neg a
min (neg a) (neg b) = if ltb a b then neg b else neg a

abbrev pub times : Num → ℕ → Num
times (nat a) k = nat (a * k)
times (neg a) k = neg (suc a * k - 1)
times nan k = nan

abbrev pub is_nan : Num → Bool
is_nan nan = true
is_nan _ = false

-- The tests that the program writes out: not a non-negative safe integer, not a positive one.
abbrev pub bad_natural : Num → Bool
bad_natural v = not (is_safe_integer v) || lt v (nat 0)

abbrev pub bad_positive : Num → Bool
bad_positive v = not (is_safe_integer v) || not (lt (nat 0) v)

-- `a > b` and `a >= b`, both false on NaN.
abbrev pub gt : Num → Num → Bool
gt a b = lt b a

abbrev pub ge : Num → Num → Bool
ge a b = lt b a || num_eq a b

-- The natural number that a value is, and 0 where it is none.
abbrev pub to_ℕ : Num → ℕ
to_ℕ (nat n) = n
to_ℕ _ = 0

-- What a value is that passes.
abbrev pub IsNatural : Num → ℕ → Type 0
IsNatural v n = (v ≡ nat n) × (n < 9007199254740992)

pub bad_natural-false : (v : Num) → bad_natural v ≡ false → (n : ℕ) × IsNatural v n
bad_natural-false (nat n) h = (n, (refl, ground arith))
bad_natural-false (neg n) h = absurd (ground arith)
bad_natural-false nan h = cc

pub bad_positive-false : (v : Num) → bad_positive v ≡ false → (n : ℕ) × IsNatural v n × (0 < n)
bad_positive-false (nat n) h = (n, (refl, ground arith), ground arith)
bad_positive-false (neg n) h = absurd (ground arith)
bad_positive-false nan h = cc

pub bad_natural-to_ℕ : (v : Num) → bad_natural v ≡ false → v ≡ nat (to_ℕ v)
bad_natural-to_ℕ (nat n) h = refl
bad_natural-to_ℕ (neg n) h = absurd (ground arith)
bad_natural-to_ℕ nan h = cc

pub num_eq-eq : (a b : Num) → num_eq a b ≡ true → a ≡ b
num_eq-eq (nat a) (nat b) h = ap nat (ground arith)
num_eq-eq (nat a) (neg b) h = cc
num_eq-eq (nat a) nan h = cc
num_eq-eq (neg a) (nat b) h = cc
num_eq-eq (neg a) (neg b) h = ap neg (ground arith)
num_eq-eq (neg a) nan h = cc
num_eq-eq nan b h = cc

-- What does not exceed the lesser of two numbers exceeds neither.
pub gt-min :
    (t a b : Num)
    → is_nan a ≡ false
    → is_nan b ≡ false
    → gt t (min a b) ≡ false
    → (gt t a ≡ false) × (gt t b ≡ false)
gt-min nan nan b h k e = cc
gt-min nan (nat a) nan h k e = cc
gt-min nan (neg a) nan h k e = cc
gt-min (nat t) nan b h k e = cc
gt-min (neg t) nan b h k e = cc
gt-min (nat t) (nat a) nan h k e = cc
gt-min (nat t) (neg a) nan h k e = cc
gt-min (neg t) (nat a) nan h k e = cc
gt-min (neg t) (neg a) nan h k e = cc
gt-min nan (nat a) (nat b) h k e = (refl, refl)
gt-min nan (nat a) (neg b) h k e = (refl, refl)
gt-min nan (neg a) (nat b) h k e = (refl, refl)
gt-min nan (neg a) (neg b) h k e = (refl, refl)
gt-min (nat t) (nat a) (nat b) h k e = (ground arith, ground arith)
gt-min (nat t) (nat a) (neg b) h k e = cc
gt-min (nat t) (neg a) (nat b) h k e = cc
gt-min (nat t) (neg a) (neg b) h k e = (ground arith, ground arith)
gt-min (neg t) (nat a) (nat b) h k e = (ground arith, ground arith)
gt-min (neg t) (nat a) (neg b) h k e = (ground arith, ground arith)
gt-min (neg t) (neg a) (nat b) h k e = (ground arith, ground arith)
gt-min (neg t) (neg a) (neg b) h k e = (ground arith, ground arith)

pub min-is_nan : (a b : Num) → is_nan a ≡ false → is_nan b ≡ false → is_nan (min a b) ≡ false
min-is_nan nan b h k = cc
min-is_nan (nat a) nan h k = cc
min-is_nan (neg a) nan h k = cc
min-is_nan (nat a) (nat b) h k = ground arith
min-is_nan (nat a) (neg b) h k = refl
min-is_nan (neg a) (nat b) h k = refl
min-is_nan (neg a) (neg b) h k = ground arith

pub sub-is_nan : (a b : Num) → is_nan a ≡ false → is_nan b ≡ false → is_nan (sub a b) ≡ false
sub-is_nan nan b h k = cc
sub-is_nan (nat a) nan h k = cc
sub-is_nan (neg a) nan h k = cc
sub-is_nan (nat a) (nat b) h k = ground arith
sub-is_nan (nat a) (neg b) h k = refl
sub-is_nan (neg a) (nat b) h k = refl
sub-is_nan (neg a) (neg b) h k = ground arith
