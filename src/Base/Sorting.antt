-- ===== src/Base/Sorting.antt =====
-- `array.sort` by a text key: insertion into a sorted list, stable.
use mathlib.Core.Path.{◌≡◌, refl, ap, ◌∙◌}
use mathlib.Core.Logic.{inl, inr}
use mathlib.Core.List.{List, [], ◌∷◌, Permᴰ}
use mathlib.Core.List.Permᴰ
use Prim.Native.String.{String}
use Prim.Native.Nat.{suc}
use native.Mathlib.Omega.{arith}
use map_data_aggregation_enh.Base.Tests.{if◌then◌else◌, Bool-cases}
use map_data_aggregation_enh.Base.Lists.{length}
use map_data_aggregation_enh.Base.TextOrder.{text_lt, text_lt_asymm, text_lt_of_not, text_lt_total}

module _ {A : Type 0} (key : A → String) where
  unfoldable pub insert_sorted : A → List A → List A
  insert_sorted x [] = x ∷ []
  insert_sorted x (y ∷ ys) =
      let rest = insert_sorted x ys in if text_lt (key y) (key x) then y ∷ rest else x ∷ y ∷ ys

  unfoldable pub sort : List A → List A
  unfolding insert_sorted
  sort [] = []
  sort (x ∷ xs) = insert_sorted x (sort xs)

  -- Two insertions commute unless two different items share a key.
  pub insert_sorted_swap :
      (x y : A) (xs : List A)
      → (key x ≡ key y → x ≡ y)
      → insert_sorted x (insert_sorted y xs) ≡ insert_sorted y (insert_sorted x xs)
  unfolding insert_sorted
  insert_sorted_swap x y [] h =
      ground (arith, text_lt_asymm (key x) (key y), text_lt_total (key x) (key y), h)
  insert_sorted_swap x y (z ∷ zs) h = ground (
    arith,
    insert_sorted_swap x y zs h,
    text_lt_asymm (key x) (key y),
    text_lt_total (key x) (key y),
    text_lt_of_not (key z) (key x) (key y),
    text_lt_of_not (key z) (key y) (key x),
    h,
  )

  length-insert_sorted : (x : A) (xs : List A) → length (insert_sorted x xs) ≡ suc (length xs)
  unfolding insert_sorted
  length-insert_sorted x [] = refl
  length-insert_sorted x (y ∷ ys) = ground (arith, length-insert_sorted x ys)

  pub length-sort : (xs : List A) → length (sort xs) ≡ length xs
  unfolding sort
  length-sort [] = refl
  length-sort (x ∷ xs) = length-insert_sorted x (sort xs) ∙ ap suc (length-sort xs)

  insert_sorted-Permᴰ : (x : A) (xs : List A) → Permᴰ (insert_sorted x xs) (x ∷ xs)
  unfolding insert_sorted
  insert_sorted-Permᴰ x [] = Permᴰ.refl (x ∷ [])
  insert_sorted-Permᴰ x (y ∷ ys) = elim (Bool-cases (text_lt (key y) (key x))) [
    | inl later ↦
        rw later (Permᴰ.trans (Permᴰ.cons refl (insert_sorted-Permᴰ x ys)) (Permᴰ.swap refl refl))
    | inr here ↦ rw here (Permᴰ.refl (x ∷ y ∷ ys))
  ]

  pub sort-Permᴰ : (xs : List A) → Permᴰ (sort xs) xs
  unfolding sort
  sort-Permᴰ [] = Permᴰ.nil
  sort-Permᴰ (x ∷ xs) =
      Permᴰ.trans (insert_sorted-Permᴰ x (sort xs)) (Permᴰ.cons refl (sort-Permᴰ xs))

-- Rearranged texts sort to the same list.
pub sort_of_Permᴰ : {xs ys : List String} → Permᴰ xs ys → sort (λ s. s) xs ≡ sort (λ s. s) ys
unfolding sort
sort_of_Permᴰ Permᴰ.nil = refl
sort_of_Permᴰ (Permᴰ.cons e p) = λ i. insert_sorted (λ s. s) (e i) (sort_of_Permᴰ p i)
sort_of_Permᴰ (Permᴰ.swap {a} {b} {l} e f) =
    insert_sorted_swap (λ s. s) a b (sort (λ s. s) l) (λ h. h) ∙ λ i.
    insert_sorted (λ s. s) (f i) (insert_sorted (λ s. s) (e i) (sort (λ s. s) l))
sort_of_Permᴰ (Permᴰ.trans p q) = sort_of_Permᴰ p ∙ sort_of_Permᴰ q
