-- ===== src/Base/Results.antt =====
-- Code that may throw: the error that it throws, or what it returns.
use mathlib.Core.Path.{◌≡◌, refl}
use mathlib.Core.Logic.{◌↔◌}
use mathlib.Core.Bool.{Bool, true, false}
use mathlib.Core.List.{List, [], ◌∷◌}
use map_data_aggregation_enh.Base.Lists.{All}

pub data Result {ℓ} (E A : Type ℓ) : Type ℓ where
  ok : A → Result E A
  err : E → Result E A

infixl 5 ◌>>=◌ ◌>>◌
abbrev pub ◌>>=◌ {ℓ} : {E A B : Type ℓ} → Result E A → (A → Result E B) → Result E B
ok a >>= f = f a
err e >>= f = err e

abbrev pub ◌>>◌ {ℓ} : {E A B : Type ℓ} → Result E A → Result E B → Result E B
m >> k = m >>= λ _. k

-- `if (test) throw error`
abbrev pub refuse : {E : Type 0} → Bool → E → Result E (Unit {0})
refuse true e = err e
refuse false e = ok tt

-- A statement that did not throw had a false test, and the rest went on.
pub refuse-ok :
    {E A : Type 0} (test : Bool) (e : E) (rest : Result E A) {a : A}
    → (refuse test e >> rest) ≡ ok a
    → (test ≡ false) × (rest ≡ ok a)
refuse-ok true e rest h = cc
refuse-ok false e rest h = (refl, h)

pub ok-refuse :
    {E A : Type 0} (test : Bool) (e : E) (rest : Result E A) {a : A}
    → test ≡ false
    → rest ≡ ok a
    → (refuse test e >> rest) ≡ ok a
ok-refuse true e rest h k = cc
ok-refuse false e rest h k = k

-- A last statement `if (test) throw error`.
pub refuse_iff : {E : Type 0} (test : Bool) (e : E) → (refuse test e ≡ ok tt) ↔ (test ≡ false)
refuse_iff true e = (λ h. cc, λ h. cc)
refuse_iff false e = (λ h. refl, λ h. refl)

pub bind-ok :
    {E A B : Type 0} (m : Result E A) (f : A → Result E B) {b : B}
    → (m >>= f) ≡ ok b
    → (a : A) × (m ≡ ok a) × (f a ≡ ok b)
bind-ok (ok a) f h = (a, refl, h)
bind-ok (err e) f h = cc

-- A loop whose body may throw.
module _ {E A : Type 0} (body : A → Result E (Unit {0})) where
  unfoldable pub for_each : List A → Result E (Unit {0})
  for_each [] = ok tt
  for_each (x ∷ xs) = body x >> for_each xs

  pub for_each-ok : (xs : List A) → for_each xs ≡ ok tt → All (λ x. body x ≡ ok tt) xs
  unfolding for_each
  for_each-ok [] h = tt
  for_each-ok (x ∷ xs) h = let (_, a, b) = bind-ok (body x) _ h in (a, for_each-ok xs b)

abbrev value_or : {E A : Type 0} → A → Result E A → A
value_or b (ok a) = a
value_or b (err e) = b

pub ok_inj : {E A : Type 0} {a b : A} → ◌≡◌ {A = Result E A} (ok a) (ok b) → a ≡ b
ok_inj {a = a} h = λ i. value_or a (h i)
