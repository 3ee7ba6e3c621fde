-- ===== src/Base/Lists.antt =====
-- Arrays as lists: length, tests on the items, and the predicate that holds of every item.
use Prim.Native.Nat.{ℕ, suc, ◌+◌, ◌≤◌}
use Prim.Native.String.{String}
use mathlib.Core.Path.{◌≡◌, refl, subst, sym, ap, ◌∙◌}
use mathlib.Core.Logic.{◌⊎◌, inl, inr}
use mathlib.Core.Bool.{Bool, true, false, not, ◌&&◌, ◌||◌}
use mathlib.Core.Option.{Option, none, some}
use mathlib.Core.List.{List, [], ◌∷◌, ◌++◌, map}
use native.Mathlib.Omega.{arith}
use text.Mathlib.Text.{◌==◌}
use text.Mathlib.TextEquality.{eq_iff}
use map_data_aggregation_enh.Base.Tests.{if◌then◌else◌, Bool-cases, and_true, or_false}

module _ {ℓ} {A : Type ℓ} where
  abbrev pub length : List A → ℕ
  length [] = 0
  length (x ∷ xs) = suc (length xs)

  abbrev pub is_nil : List A → Bool
  is_nil [] = true
  is_nil (x ∷ xs) = false

  -- `array.some`, `array.every`, `array.filter`, `array.find`
  abbrev pub any : (A → Bool) → List A → Bool
  any p [] = false
  any p (x ∷ xs) = p x || any p xs

  abbrev pub all : (A → Bool) → List A → Bool
  all p [] = true
  all p (x ∷ xs) = p x && all p xs

  abbrev pub filter : (A → Bool) → List A → List A
  filter p [] = []
  filter p (x ∷ xs) = let rest = filter p xs in if p x then x ∷ rest else rest

  abbrev pub find : (A → Bool) → List A → Option A
  find p [] = none
  find p (x ∷ xs) = let rest = find p xs in if p x then some x else rest

module _ {ℓ κ} {A : Type ℓ} (P : A → Type κ) where
  abbrev pub All : List A → Type κ
  All [] = Unit
  All (x ∷ xs) = P x × All xs

module _ {ℓ κ} {A : Type ℓ} {P Q : A → Type κ} where
  pub All-map : ((x : A) → P x → Q x) → (xs : List A) → All P xs → All Q xs
  All-map f [] h = tt
  All-map f (x ∷ xs) h = (f x h.0, All-map f xs h.1)

module _ {ℓ} {A : Type ℓ} {P Q S : A → Type ℓ} (f : (x : A) → P x → Q x → S x) where
  pub All-map₂ : (xs : List A) → All P xs → All Q xs → All S xs
  All-map₂ [] h k = tt
  All-map₂ (x ∷ xs) h k = (f x h.0 k.0, All-map₂ xs h.1 k.1)

-- A row of statements `if (b) issues.push(x)`: what they push.
module _ {ℓ} {A : Type ℓ} where
  unfoldable pub failing : List (Bool × A) → List A
  failing [] = []
  failing ((test, x) ∷ rest) = let later = failing rest in if test then x ∷ later else later

  pub failing-nil : (tests : List (Bool × A)) → failing tests ≡ [] → All (λ t. t.0 ≡ false) tests
  unfolding failing
  failing-nil [] h = tt
  failing-nil ((true, x) ∷ rest) h = cc
  failing-nil ((false, x) ∷ rest) h = (refl, failing-nil rest h)

  pub nil-failing : (tests : List (Bool × A)) → All (λ t. t.0 ≡ false) tests → failing tests ≡ []
  unfolding failing
  nil-failing [] h = refl
  nil-failing ((test, x) ∷ rest) h = rw h.0 (nil-failing rest h.1)

-- There is an item of which `P` holds.
abbrev pub Any : {A : Type 0} → (A → Type 0) → List A → Type 0
Any P [] = ⊥
Any P (x ∷ xs) = P x ⊎ Any P xs

pub Any-map :
    {A : Type 0} {P Q : A → Type 0} → ((x : A) → P x → Q x) → (xs : List A) → Any P xs → Any Q xs
Any-map f [] h = h
Any-map f (x ∷ xs) (inl p) = inl (f x p)
Any-map f (x ∷ xs) (inr t) = inr (Any-map f xs t)

module _ {A : Type 0} where
  pub append-eq-nil : (xs ys : List A) → xs ++ ys ≡ [] → (xs ≡ []) × (ys ≡ [])
  append-eq-nil [] ys h = (refl, h)
  append-eq-nil (x ∷ xs) ys h = cc

  pub find-some :
      (p : A → Bool) (xs : List A) {x : A} → find p xs ≡ some x → (p x ≡ true) × Any (λ y. y ≡ x) xs
  find-some p [] h = cc
  find-some p (y ∷ xs) {x} h = elim (Bool-cases (p y)) [
    | inl t ↦ let e : y ≡ x = ground arith in (ground arith, inl e)
    | inr f ↦ let (a, b) = find-some p xs {x = x} (ground arith) in (a, inr b)
  ]

  pub find-none : (p : A → Bool) (xs : List A) → find p xs ≡ none → All (λ y. p y ≡ false) xs
  find-none p [] h = tt
  find-none p (y ∷ xs) h = elim (Bool-cases (p y)) [
    | inl t ↦ absurd (ground arith)
    | inr f ↦ (f, find-none p xs (ground arith))
  ]

  pub all-All : (p : A → Bool) (xs : List A) → all p xs ≡ true → All (λ y. p y ≡ true) xs
  all-All p [] h = tt
  all-All p (y ∷ xs) h = let (a, b) = and_true (p y) (all p xs) h in (a, all-All p xs b)

  pub any-false : (p : A → Bool) (xs : List A) → any p xs ≡ false → All (λ y. p y ≡ false) xs
  any-false p [] h = tt
  any-false p (y ∷ xs) h = let (a, b) = or_false (p y) (any p xs) h in (a, any-false p xs b)

  pub any-Any : (p : A → Bool) (xs : List A) → any p xs ≡ true → Any (λ y. p y ≡ true) xs
  any-Any p [] h = cc
  any-Any p (y ∷ xs) h = elim (Bool-cases (p y)) [
    | inl t ↦ inl t
    | inr f ↦ inr (any-Any p xs (ground arith))
  ]

  pub length-append : (xs ys : List A) → length (xs ++ ys) ≡ length xs + length ys
  length-append [] ys = omega arith
  length-append (x ∷ xs) ys = omega (arith, length-append xs ys)

  pub length-filter : (p : A → Bool) (xs : List A) → length (filter p xs) ≤ length xs
  length-filter p [] = omega arith
  length-filter p (x ∷ xs) = ground (arith, length-filter p xs)

-- `array.includes` on texts, and the texts that are non-empty.
abbrev pub includes : List String → String → Bool
includes [] a = false
includes (x ∷ xs) a = x == a || includes xs a

abbrev pub is_empty : String → Bool
is_empty s = s == ""

-- `new Set(xs).size !== xs.length` is `not (is_unique xs)`.
abbrev pub is_unique : List String → Bool
is_unique [] = true
is_unique (x ∷ xs) = not (includes xs x) && is_unique xs

pub includes-Any : (xs : List String) (a : String) → includes xs a ≡ true → Any (λ x. x ≡ a) xs
includes-Any [] a h = cc
includes-Any (x ∷ xs) a h = elim (Bool-cases (x == a)) [
  | inl t ↦ inl ((eq_iff x a).0 t)
  | inr f ↦ inr (includes-Any xs a (ground arith))
]

-- What holds of every item holds of one, and an item with a property is an item.
module _ {A : Type 0} (P : A → Type 0) where
  pub All-Any : (xs : List A) {a : A} → All P xs → Any (λ x. x ≡ a) xs → P a
  All-Any [] h t = absurd t
  All-Any (x ∷ xs) h (inl e) = subst P e h.0
  All-Any (x ∷ xs) h (inr t) = All-Any xs h.1 t

  pub Any-item : (xs : List A) → Any P xs → (a : A) × Any (λ x. x ≡ a) xs × P a
  Any-item [] t = absurd t
  Any-item (x ∷ xs) (inl p) = (x, inl refl, p)
  Any-item (x ∷ xs) (inr t) = let (a, there, p) = Any-item xs t in (a, inr there, p)

module _ {A : Type 0} (f : A → String) where
  includes-map :
      (xs : List A) (a : A) (s : String)
      → Any (λ x. x ≡ a) xs
      → f a ≡ s
      → includes (map f xs) s ≡ true
  includes-map [] a s t e = absurd t
  includes-map (x ∷ xs) a s (inl h) e =
      let same : f x ≡ s = ap f h ∙ e in ground (arith, eq_iff (f x) s)
  includes-map (x ∷ xs) a s (inr t) e = ground (arith, includes-map xs a s t e)

  -- Items whose names are unique are the same where their names are.
  pub unique-eq :
      (xs : List A) (a b : A)
      → is_unique (map f xs) ≡ true
      → Any (λ x. x ≡ a) xs
      → Any (λ x. x ≡ b) xs
      → f a ≡ f b
      → a ≡ b
  unique-eq [] a b u s t e = absurd s
  unique-eq (x ∷ xs) a b u (inl h) (inl k) e = sym h ∙ k
  unique-eq (x ∷ xs) a b u (inl h) (inr t) e =
      let there = includes-map xs b (f x) t (sym e ∙ ap f (sym h)) in absurd (ground arith)
  unique-eq (x ∷ xs) a b u (inr s) (inl k) e =
      let there = includes-map xs a (f x) s (e ∙ ap f (sym k)) in absurd (ground arith)
  unique-eq (x ∷ xs) a b u (inr s) (inr t) e = unique-eq xs a b (ground arith) s t e

pub filter-Any :
    {A : Type 0} (p : A → Bool) (xs : List A) (a : A)
    → Any (λ x. x ≡ a) (filter p xs)
    → Any (λ x. x ≡ a) xs
filter-Any p [] a t = t
filter-Any p (x ∷ xs) a t = elim (Bool-cases (p x)) [
  | inl t₁ ↦
      let kept : Any (λ y. y ≡ a) (x ∷ filter p xs) = rw t₁ at t in
      elim kept [ inl e ↦ inl e | inr u ↦ inr (filter-Any p xs a u) ]
  | inr f₁ ↦ inr (filter-Any p xs a (rw f₁ at t))
]
