-- ===== src/Core/SameValues.antt =====
-- `sameValues` of packages/core/src/validation.ts, and `sameOperations` of
-- packages/core/src/readiness.ts, which has the same body: both lists sorted, then compared.
mod Examples
use mathlib.Core.List.{Permᴰ}
use mathlib.Core.List.Permᴰ
use map_data_aggregation_enh.Base.{
  ℕ, ◌≡◌, refl, sym, ap, subst, ◌∙◌, ◌↔◌, String, Bool, true, false, ◌&&◌, List, [], ◌∷◌, length,
  ◌==◌, eqb, eqb_iff, eq_iff, eq_refl, and_true, arith,
}
use map_data_aggregation_enh.Base.Sorting.{sort, length-sort, sort-Permᴰ, sort_of_Permᴰ}

-- `left.every((value, index) => value === right[index])`
unfoldable pub every_at : List String → List String → Bool
every_at [] ys = true
every_at (x ∷ xs) [] = false
every_at (x ∷ xs) (y ∷ ys) = x == y && every_at xs ys

unfoldable pub same_values : List String → List String → Bool
unfolding every_at
same_values left right =
    eqb (length left) (length right) && every_at (sort (λ s. s) left) (sort (λ s. s) right)

every_at-eq : (xs ys : List String) → length xs ≡ length ys → every_at xs ys ≡ true → xs ≡ ys
unfolding every_at
every_at-eq [] [] h k = refl
every_at-eq [] (y ∷ ys) h k = absurd (omega arith)
every_at-eq (x ∷ xs) [] h k = cc
every_at-eq (x ∷ xs) (y ∷ ys) h k =
    let (a, b) = and_true (x == y) (every_at xs ys) k in
    λ i. (eq_iff x y).0 a i ∷ every_at-eq xs ys (omega arith) b i

every_at_refl : (xs : List String) → every_at xs xs ≡ true
unfolding every_at
every_at_refl [] = refl
every_at_refl (x ∷ xs) = rw (eq_refl x, every_at_refl xs)

same_values-Permᴰ : (l r : List String) → same_values l r ≡ true → Permᴰ l r
unfolding same_values
same_values-Permᴰ l r h =
    let (a, b) = and_true _ _ h in
    let lengths =
      length-sort (λ s. s) l
      ∙ ((eqb_iff (length l) (length r)).0 a ∙ sym (length-sort (λ s. s) r)) in
    let sorted = every_at-eq (sort (λ s. s) l) (sort (λ s. s) r) lengths b in
    Permᴰ.trans (Permᴰ.symm (sort-Permᴰ (λ s. s) l))
      (subst (λ xs. Permᴰ xs r) (sym sorted) (sort-Permᴰ (λ s. s) r))

Permᴰ-same_values : (l r : List String) → Permᴰ l r → same_values l r ≡ true
unfolding same_values
Permᴰ-same_values l r p =
    let sorted = sort_of_Permᴰ p in
    let lengths = sym (length-sort (λ s. s) l) ∙ (ap length sorted ∙ length-sort (λ s. s) r) in
    rw (sorted, (eqb_iff (length l) (length r)).1 lengths) (every_at_refl (sort (λ s. s) r))

-- Two lists of texts are accepted as the same exactly when one is a rearrangement of the other,
-- each text counted as often as it occurs.
pub same_values_iff : (l r : List String) → (same_values l r ≡ true) ↔ Permᴰ l r
same_values_iff l r = (same_values-Permᴰ l r, Permᴰ-same_values l r)
