-- ===== src/Core/Identity/Same.antt =====
-- Equality of JSON values up to the order of object entries, which insertion by key respects
-- (packages/core/src/identity.ts).
use map_data_aggregation_enh.Base.{
  String, ◌≡◌, ◌≢◌, refl, sym, ap, Option, none, some, Bool-cases, inl, inr, arith,
}
use map_data_aggregation_enh.Base.TextOrder.{
  text_lt, text_lt_irrefl, text_lt_asymm, text_lt_of_not, text_lt_total,
}
use map_data_aggregation_enh.Core.Identity.{
  Json, arr, obj, Items, nil, cons, Fields, end, field, insert_field, with_field,
}

-- Equal up to the order of the entries of objects, at any depth.
mutual
  pub data Same : Json → Json → Type 0 where
    same_refl : {v : Json} → Same v v
    same_arr : {vs ws : Items} → SameItems vs ws → Same (arr vs) (arr ws)
    same_obj : {fs gs : Fields} → SameFields fs gs → Same (obj fs) (obj gs)

  pub data SameItems : Items → Items → Type 0 where
    same_nil : SameItems nil nil
    same_cons :
        {v w : Json} {vs ws : Items}
        → Same v w
        → SameItems vs ws
        → SameItems (cons v vs) (cons w ws)

  pub data SameFields : Fields → Fields → Type 0 where
    same_end : SameFields end end
    same_field :
        {k : String} {v w : Json} {fs gs : Fields}
        → Same v w
        → SameFields fs gs
        → SameFields (field k v fs) (field k w gs)
    reorder :
        {k j : String} {v w : Json} {fs : Fields}
        → k ≢ j
        → SameFields (field k v (field j w fs)) (field j w (field k v fs))
    same_trans : {fs gs hs : Fields} → SameFields fs gs → SameFields gs hs → SameFields fs hs

-- Two insertions under different keys commute.
insert_field_swap :
    (k j : String) (v w : Json) (fs : Fields)
    → k ≢ j
    → insert_field k v (insert_field j w fs) ≡ insert_field j w (insert_field k v fs)
unfolding insert_field
insert_field_swap k j v w end h = ground (arith, text_lt_asymm k j, text_lt_total k j)
insert_field_swap k j v w (field i u fs) h = ground (
  arith,
  insert_field_swap k j v w fs h,
  text_lt_asymm k j,
  text_lt_total k j,
  text_lt_of_not i k j,
  text_lt_of_not i j k,
)

pub with_field_swap :
    (k j : String) (v w : Option Json) (fs : Option Fields)
    → k ≢ j
    → with_field k v (with_field j w fs) ≡ with_field j w (with_field k v fs)
with_field_swap k j (some v) (some w) (some fs) h = ap some (insert_field_swap k j v w fs h)
with_field_swap k j (some v) (some w) none h = refl
with_field_swap k j (some v) none (some fs) h = refl
with_field_swap k j (some v) none none h = refl
with_field_swap k j none (some w) (some fs) h = refl
with_field_swap k j none (some w) none h = refl
with_field_swap k j none none (some fs) h = refl
with_field_swap k j none none none h = refl

mutual
  pub Same-symm : {v w : Json} → Same v w → Same w v
  Same-symm same_refl = same_refl
  Same-symm (same_arr p) = same_arr (SameItems-symm p)
  Same-symm (same_obj p) = same_obj (SameFields-symm p)

  SameItems-symm : {vs ws : Items} → SameItems vs ws → SameItems ws vs
  SameItems-symm same_nil = same_nil
  SameItems-symm (same_cons p q) = same_cons (Same-symm p) (SameItems-symm q)

  SameFields-symm : {fs gs : Fields} → SameFields fs gs → SameFields gs fs
  SameFields-symm same_end = same_end
  SameFields-symm (same_field p q) = same_field (Same-symm p) (SameFields-symm q)
  SameFields-symm (reorder h) = reorder (λ e. h (sym e))
  SameFields-symm (same_trans p q) = same_trans (SameFields-symm q) (SameFields-symm p)

SameFields-refl : (fs : Fields) → SameFields fs fs
SameFields-refl end = same_end
SameFields-refl (field k v fs) = same_field same_refl (SameFields-refl fs)

-- An insertion only moves the new entry past entries with smaller keys.
pub insert_field-SameFields :
    (k : String) (v : Json) (fs : Fields) → SameFields (field k v fs) (insert_field k v fs)
unfolding insert_field
insert_field-SameFields k v end = same_field same_refl same_end
insert_field-SameFields k v (field j w fs) = elim (Bool-cases (text_lt j k)) [
  | inl later ↦ rw later (
      same_trans (reorder (λ e. absurd (ground (arith, text_lt_irrefl k))))
        (same_field same_refl (insert_field-SameFields k v fs)))
  | inr here ↦ rw here (SameFields-refl (field k v (field j w fs)))
]

mutual
  pub Same-trans : {v w u : Json} → Same v w → Same w u → Same v u
  Same-trans same_refl q = q
  Same-trans (same_arr p) same_refl = same_arr p
  Same-trans (same_arr p) (same_arr q) = same_arr (SameItems-trans p q)
  Same-trans (same_obj p) same_refl = same_obj p
  Same-trans (same_obj p) (same_obj q) = same_obj (same_trans p q)

  SameItems-trans : {vs ws us : Items} → SameItems vs ws → SameItems ws us → SameItems vs us
  SameItems-trans same_nil q = q
  SameItems-trans (same_cons a p) (same_cons b q) = same_cons (Same-trans a b) (SameItems-trans p q)
