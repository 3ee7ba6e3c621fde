-- ===== src/StateSqlite/Running/Through.antt =====
-- Properties of the tables through the constructs of a method
-- (packages/state-sqlite/src/index.ts).
use map_data_aggregation_enh.Base.{◌≡◌, refl, Bool, true, false, Result, ok, err, if◌then◌else◌}
use map_data_aggregation_enh.StateSqlite.Tables.{Db}
use map_data_aggregation_enh.StateSqlite.Actions.{
  StoreError, Action, continue, transaction, settle, throw_if, ◌>>◌, pure,
}

module _ (P : Db → Type 0) where
  settle_keeps :
      {A : Type 0} (before : Db) (r : Result StoreError A × Db)
      → P before
      → P r.1
      → P (settle before r).1
  settle_keeps before (ok a, db) h k = k
  settle_keeps before (err e, db) h k = h

  pub transaction_keeps :
      {A : Type 0} (m : Action A) (db : Db) → P db → P (m db).1 → P (transaction m db).1
  unfolding transaction
  transaction_keeps m db h k = settle_keeps db (m db) h k

  pub throw_if_keeps : (b : Bool) (e : StoreError) (db : Db) → P db → P (throw_if b e db).1
  throw_if_keeps true e db h = h
  throw_if_keeps false e db h = h

  pub guard_keeps :
      {A : Type 0} (b : Bool) (e : StoreError) (m : Action A) (db : Db)
      → P db
      → (b ≡ false → P (m db).1)
      → P ((throw_if b e >> m) db).1
  guard_keeps true e m db h k = h
  guard_keeps false e m db h k = k refl

  pub pure_keeps :
      {A B : Type 0} (r : Result StoreError A × Db) (b : B) → P r.1 → P (continue r (λ _. pure b)).1
  pure_keeps (ok a, db) b h = h
  pure_keeps (err e, db) b h = h

  pub branch_keeps :
      {A : Type 0} (b : Bool) (x y : Result StoreError A × Db)
      → (b ≡ true → P x.1)
      → (b ≡ false → P y.1)
      → P (if b then x else y).1
  branch_keeps true x y h k = h refl
  branch_keeps false x y h k = k refl
