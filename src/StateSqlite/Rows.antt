-- ===== src/StateSqlite/Rows.antt =====
-- UPDATE and INSERT on a list of rows.
use map_data_aggregation_enh.Base.{
  ◌+◌, ◌≤◌, ◌≡◌, refl, Bool, false, ◌&&◌, List, [], ◌∷◌, ◌++◌, any, find, Bool-cases, inl, inr,
  arith,
}
use map_data_aggregation_enh.StateSqlite.Tables.{update, changes}

module _ {R : Type 0} (p : R → Bool) (set : R → R) where
  -- An update that matches no row changes nothing.
  pub update-none : (rows : List R) → changes p rows ≡ 0 → update p set rows ≡ rows
  update-none [] h = refl
  update-none (r ∷ rows) h = elim (Bool-cases (p r)) [
    | inl t ↦ absurd (ground arith)
    | inr f ↦ rw (f, update-none rows (ground arith))
  ]

module _ {R : Type 0} (q p : R → Bool) (set : R → R) (keeps : (r : R) → q (set r) ≡ q r) where
  -- A test that the update does not touch holds of as many rows as before.
  pub changes-update : (rows : List R) → changes q (update p set rows) ≡ changes q rows
  changes-update [] = refl
  changes-update (r ∷ rows) = ground (arith, keeps r, changes-update rows)

module _ {R : Type 0} (q : R → Bool) where
  pub changes-append : (xs ys : List R) → changes q (xs ++ ys) ≡ changes q xs + changes q ys
  changes-append [] ys = omega arith
  changes-append (x ∷ xs) ys = ground (arith, changes-append xs ys)

  pub changes-any : (rows : List R) → any q rows ≡ false → changes q rows ≡ 0
  changes-any [] h = refl
  changes-any (r ∷ rows) h = ground (arith, changes-any rows)

  pub changes-and : (p : R → Bool) (rows : List R) → changes (λ r. q r && p r) rows ≤ changes q rows
  changes-and p [] = omega arith
  changes-and p (r ∷ rows) = ground (arith, changes-and p rows)

  -- A row appended that the test does not hold of is not found.
  pub find-append : (xs : List R) (y : R) → q y ≡ false → find q (xs ++ y ∷ []) ≡ find q xs
  find-append [] y h = ground arith
  find-append (x ∷ xs) y h = ground (arith, find-append xs y)
