-- ===== src/StateSqlite/Checkpoints.antt =====
-- Storing a checkpoint and loading it (packages/state-sqlite/src/index.ts).
use map_data_aggregation_enh.Base.{
  ◌≡◌, refl, sym, ◌∙◌, String, Bool, true, false, List, [], ◌∷◌, some, eq_iff, eq_refl, ◌==◌,
  Result, ok, err, arith,
}
use map_data_aggregation_enh.Core.Identity.{Json, IdentityError, canonicalize}
use map_data_aggregation_enh.StateSqlite.Tables.{
  CheckpointRow, CheckpointMode, same_mode, for_preview, for_apply, Db,
}
use map_data_aggregation_enh.StateSqlite.Actions.{throw_if, checkpoint_bound}
use map_data_aggregation_enh.StateSqlite.Methods.{
  put_value, put_canonical, put_checkpoint, load_checkpoint, upsert_checkpoint, select_checkpoint,
  bound_elsewhere, value_of,
}

throw_if-ok : (b : Bool) (db : Db) → (throw_if b checkpoint_bound db).0 ≡ ok tt → b ≡ false
throw_if-ok true db h = cc
throw_if-ok false db h = refl

same_mode_iff : (m n : CheckpointMode) → same_mode m n ≡ true → m ≡ n
same_mode_iff for_preview for_preview h = refl
same_mode_iff for_apply for_apply h = refl
same_mode_iff for_preview for_apply h = cc
same_mode_iff for_apply for_preview h = cc

throw_if_rows : (b : Bool) (db : Db) → (throw_if b checkpoint_bound db).1 ≡ db
throw_if_rows true db = refl
throw_if_rows false db = refl

-- After an upsert, the row of the key is the new one where it is not bound elsewhere.
select-upsert :
    (new : CheckpointRow) (rows : List CheckpointRow)
    → bound_elsewhere new.profile new.mode
        (select_checkpoint new.checkpoint_key (upsert_checkpoint new rows))
      ≡ false
    → value_of (select_checkpoint new.checkpoint_key (upsert_checkpoint new rows)) ≡ some new.value
unfolding upsert_checkpoint
select-upsert new [] h = ground (arith, eq_refl new.checkpoint_key)
select-upsert new (c ∷ rows) h = ground (arith, select-upsert new rows)

-- An upsert leaves the other keys' rows.
select-upsert_other :
    (new : CheckpointRow) (other : String) (rows : List CheckpointRow)
    → (new.checkpoint_key == other) ≡ false
    → select_checkpoint other (upsert_checkpoint new rows) ≡ select_checkpoint other rows
unfolding upsert_checkpoint
select-upsert_other new other [] ne = ground arith
select-upsert_other new other (c ∷ rows) ne = ground (
  arith,
  eq_iff c.checkpoint_key new.checkpoint_key,
  eq_iff c.checkpoint_key other,
  eq_iff new.checkpoint_key other,
  select-upsert_other new other rows ne,
)

put_canonical-load :
    (new : CheckpointRow) (db : Db)
    → (put_canonical new db).0 ≡ ok tt
    → load_checkpoint (put_canonical new db).1 new.checkpoint_key ≡ some new.value
unfolding put_canonical load_checkpoint
put_canonical-load new db h =
    let rows = upsert_checkpoint new db.checkpoints in
    let bound = bound_elsewhere new.profile new.mode (select_checkpoint new.checkpoint_key rows) in
    let db' : Db = record db { checkpoints = rows } in
    let same = throw_if_rows bound db' in
    (λ i. value_of (select_checkpoint new.checkpoint_key (same i).checkpoints))
    ∙ select-upsert new db.checkpoints (throw_if-ok bound db' h)

put_canonical-load_other :
    (new : CheckpointRow) (other : String) (db : Db)
    → (new.checkpoint_key == other) ≡ false
    → load_checkpoint (put_canonical new db).1 other ≡ load_checkpoint db other
unfolding put_canonical load_checkpoint
put_canonical-load_other new other db ne =
    let rows = upsert_checkpoint new db.checkpoints in
    let bound = bound_elsewhere new.profile new.mode (select_checkpoint new.checkpoint_key rows) in
    let db' : Db = record db { checkpoints = rows } in
    let same = throw_if_rows bound db' in
    (λ i. value_of (select_checkpoint other (same i).checkpoints)) ∙ λ i.
    value_of (select-upsert_other new other db.checkpoints ne i)

put_value-load :
    (row : Json → CheckpointRow) (key : String)
    → ((w : Json) → ((row w).checkpoint_key ≡ key) × ((row w).value ≡ w))
    → (v : Result IdentityError Json) (db : Db) → (put_value row v db).0 ≡ ok tt
    → (w : Json) × (v ≡ ok w) × (load_checkpoint (put_value row v db).1 key ≡ some w)
unfolding put_value
put_value-load row key same (err e) db h = cc
put_value-load row key same (ok w) db h =
    let db' = (put_canonical (row w) db).1 in
    (
      w,
      refl,
      (λ i. load_checkpoint db' (sym (same w).0 i))
          ∙ (put_canonical-load (row w) db h ∙ λ i. some ((same w).1 i)),
    )

put_value-load_other :
    (row : Json → CheckpointRow) (key other : String)
    → ((w : Json) → (row w).checkpoint_key ≡ key)
    → (key == other) ≡ false
    → (v : Result IdentityError Json) (db : Db)
    → load_checkpoint (put_value row v db).1 other ≡ load_checkpoint db other
unfolding put_value
put_value-load_other row key other same ne (err e) db = refl
put_value-load_other row key other same ne (ok w) db =
    put_canonical-load_other (row w) other db ((λ i. same w i == other) ∙ ne)

-- Where a checkpoint is stored without a throw, its value has a canonical form, and that is what
-- the key then loads; every other key loads what it did.
pub load-put :
    (key profile : String) (mode : CheckpointMode) (value : Json) (updated : String) (db : Db)
    → (put_checkpoint key profile mode value updated db).0 ≡ ok tt
    → let db' = (put_checkpoint key profile mode value updated db).1 in
      ((w : Json) × (canonicalize value ≡ ok w) × (load_checkpoint db' key ≡ some w))
      × ((other : String)
          → (key == other) ≡ false
          → load_checkpoint db' other ≡ load_checkpoint db other)
unfolding put_checkpoint
load-put key profile mode value updated db h = (
  put_value-load _ key (λ w. (refl, refl)) (canonicalize value) db h,
  λ other ne. put_value-load_other _ key other (λ w. refl) ne (canonicalize value) db,
)
