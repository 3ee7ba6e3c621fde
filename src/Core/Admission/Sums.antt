-- ===== src/Core/Admission/Sums.antt =====
-- The sums and maxima of the admission check are those of natural numbers once every field passed.
use map_data_aggregation_enh.Base.{
  ℕ, ◌+◌, ◌≤◌, ◌≡◌, refl, ap, ◌∙◌, false, List, [], ◌∷◌, All, ltb, arith, if◌then◌else◌,
}
use map_data_aggregation_enh.Base.Numbers.{
  Num, nat, neg, nan, bad_natural, to_ℕ, bad_natural-to_ℕ, max,
}
use map_data_aggregation_enh.Core.Types.{ResourceReservation}
use map_data_aggregation_enh.Core.Admission.{sum_from, max_from}

abbrev pub sum_of : (ResourceReservation → Num) → List ResourceReservation → ℕ
sum_of f [] = 0
sum_of f (r ∷ rest) = to_ℕ (f r) + sum_of f rest

abbrev pub IsNaturalOn : (ResourceReservation → Num) → ResourceReservation → Type 0
IsNaturalOn f r = bad_natural (f r) ≡ false

abbrev pub larger : ℕ → ℕ → ℕ
larger a b = if ltb a b then b else a

pub max-nat : (a : ℕ) (v : Num) → bad_natural v ≡ false → max (nat a) v ≡ nat (larger a (to_ℕ v))
max-nat a (nat b) h = ground arith
max-nat a (neg b) h = absurd (ground arith)
max-nat a nan h = cc

module _ (f : ResourceReservation → Num) where
  pub sum_from-nat :
      (a : ℕ) (rs : List ResourceReservation)
      → All (IsNaturalOn f) rs
      → sum_from f (nat a) rs ≡ nat (a + sum_of f rs)
  unfolding sum_from
  sum_from-nat a [] h = ground arith
  sum_from-nat a (r ∷ rest) h =
      rw (bad_natural-to_ℕ (f r) h.0)
        (sum_from-nat (a + to_ℕ (f r)) rest h.1 ∙ ap nat (omega arith))

  -- The maximum is at least what it starts from and what each reservation asks for.
  pub le-max_from :
      (a : ℕ) (rs : List ResourceReservation)
      → All (IsNaturalOn f) rs
      → (m : ℕ) × (max_from f (nat a) rs ≡ nat m) × (a ≤ m) × All (λ r. to_ℕ (f r) ≤ m) rs
  unfolding max_from
  le-max_from a [] h = (a, refl, omega arith, tt)
  le-max_from a (r ∷ rest) h =
      let (m, e, a_le, rest_le) = le-max_from (larger a (to_ℕ (f r))) rest h.1 in
      (m, rw (max-nat a (f r) h.0) e, ground arith, (ground arith, rest_le))

  -- It is no larger than any bound on all of them.
  pub max_from-le :
      (a b : ℕ) (rs : List ResourceReservation)
      → All (IsNaturalOn f) rs
      → a ≤ b
      → All (λ r. to_ℕ (f r) ≤ b) rs
      → (m : ℕ) × (max_from f (nat a) rs ≡ nat m) × (m ≤ b)
  unfolding max_from
  max_from-le a b [] h le _ = (a, refl, le)
  max_from-le a b (r ∷ rest) h le (here, later) =
      let (m, e, m_le) = max_from-le (larger a (to_ℕ (f r))) b rest h.1 (ground arith) later in
      (m, rw (max-nat a (f r) h.0) e, m_le)
