-- ===== src/Core/Identity/Canonical.antt =====
-- The canonical form stands for a value up to the order of object entries, and for nothing more
-- (packages/core/src/identity.ts).
use map_data_aggregation_enh.Base.{
  String, ◌≡◌, refl, sym, ap, subst, ◌∙◌, ◌↔◌, Option, none, some, Option-cases, inl, inr, ok,
  arith,
}
use map_data_aggregation_enh.Base.Numbers.{nat, neg, nan}
use map_data_aggregation_enh.Core.Identity.{
  Json, null, bool, num, str, arr, obj, Items, nil, cons, Fields, end, field, insert_field,
  with_item, with_field, as_array, as_object, normalize, normalize_items, normalize_fields,
  canonicalize,
}
use map_data_aggregation_enh.Core.Identity.Same.{
  Same, same_refl, same_arr, same_obj, SameItems, same_nil, same_cons, SameFields, same_end,
  same_field, reorder, same_trans, with_field_swap, Same-symm, Same-trans, insert_field-SameFields,
}

mutual
  unfolding normalize

  normalize-Same : {v w : Json} → Same v w → normalize v ≡ normalize w
  normalize-Same same_refl = refl
  normalize-Same (same_arr p) = ap as_array (normalize_items_same p)
  normalize-Same (same_obj p) = ap as_object (normalize_fields_same p)

  normalize_items_same : {vs ws : Items} → SameItems vs ws → normalize_items vs ≡ normalize_items ws
  normalize_items_same same_nil = refl
  normalize_items_same (same_cons p q) =
      λ i. with_item (normalize-Same p i) (normalize_items_same q i)

  normalize_fields_same :
      {fs gs : Fields} → SameFields fs gs → normalize_fields fs ≡ normalize_fields gs
  normalize_fields_same same_end = refl
  normalize_fields_same (same_field {k} p q) =
      λ i. with_field k (normalize-Same p i) (normalize_fields_same q i)
  normalize_fields_same (reorder {k} {j} {v} {w} {fs} h) =
      with_field_swap k j (normalize v) (normalize w) (normalize_fields fs) h
  normalize_fields_same (same_trans p q) = normalize_fields_same p ∙ normalize_fields_same q

with_item-some :
    (v : Option Json) (vs : Option Items) {r : Items}
    → with_item v vs ≡ some r
    → (w : Json) × (ws : Items) × (v ≡ some w) × (vs ≡ some ws) × (r ≡ cons w ws)
with_item-some (some w) (some ws) h = (w, ws, refl, refl, ground arith)
with_item-some (some w) none h = cc
with_item-some none vs h = cc

with_field-some :
    (k : String) (v : Option Json) (fs : Option Fields) {r : Fields}
    → with_field k v fs ≡ some r
    → (w : Json) × (gs : Fields) × (v ≡ some w) × (fs ≡ some gs) × (r ≡ insert_field k w gs)
with_field-some k (some w) (some gs) h = (w, gs, refl, refl, ground arith)
with_field-some k (some w) none h = cc
with_field-some k none fs h = cc

as_array-some :
    (o : Option Items) {r : Json}
    → as_array o ≡ some r
    → (vs : Items) × (o ≡ some vs) × (r ≡ arr vs)
as_array-some (some vs) h = (vs, refl, ground arith)
as_array-some none h = cc

as_object-some :
    (o : Option Fields) {r : Json}
    → as_object o ≡ some r
    → (fs : Fields) × (o ≡ some fs) × (r ≡ obj fs)
as_object-some (some fs) h = (fs, refl, ground arith)
as_object-some none h = cc

some-Same : (v w : Json) → some v ≡ some w → Same v w
some-Same v w h = subst (Same v) (ground arith) same_refl

mutual
  unfolding normalize

  Same-normalize : (v : Json) {w : Json} → normalize v ≡ some w → Same v w
  Same-normalize null h = some-Same _ _ h
  Same-normalize (bool b) h = some-Same _ _ h
  Same-normalize (num nan) h = cc
  Same-normalize (num (nat n)) h = some-Same _ _ h
  Same-normalize (num (neg n)) h = some-Same _ _ h
  Same-normalize (str s) h = some-Same _ _ h
  Same-normalize (arr vs) h =
      let (ws, e, r) = as_array-some _ h in
      subst (Same (arr vs)) (sym r) (same_arr (same_normalize_items vs e))
  Same-normalize (obj fs) h =
      let (gs, e, r) = as_object-some _ h in
      subst (Same (obj fs)) (sym r) (same_obj (same_normalize_fields fs e))

  same_normalize_items : (vs : Items) {ws : Items} → normalize_items vs ≡ some ws → SameItems vs ws
  same_normalize_items nil h = subst (SameItems nil) (ground arith) same_nil
  same_normalize_items (cons v vs) h =
      let (w, ws, e, f, r) = with_item-some _ _ h in
      subst (SameItems (cons v vs)) (sym r)
        (same_cons (Same-normalize v e) (same_normalize_items vs f))

  same_normalize_fields :
      (fs : Fields) {gs : Fields} → normalize_fields fs ≡ some gs → SameFields fs gs
  same_normalize_fields end h = subst (SameFields end) (ground arith) same_end
  same_normalize_fields (field k v fs) h =
      let (w, gs, e, f, r) = with_field-some k _ _ h in
      subst (SameFields (field k v fs)) (sym r) (
        same_trans (same_field (Same-normalize v e) (same_normalize_fields fs f))
          (insert_field-SameFields k w gs))

canonicalize-some : (v : Json) {c : Json} → canonicalize v ≡ ok c → normalize v ≡ some c
unfolding canonicalize
canonicalize-some v h = elim (Option-cases (normalize v)) [
  | inl e ↦ absurd (ground arith)
  | inr (w, e) ↦ ground arith
]

some-canonicalize : (v : Json) {c : Json} → normalize v ≡ some c → canonicalize v ≡ ok c
unfolding canonicalize
some-canonicalize v h = rw (h, canonicalize)

-- If a value has a canonical form, the values with the same canonical form are exactly those that
-- differ from it in the order of object entries only.
pub canonicalize_iff :
    (v w : Json) {c : Json} → canonicalize v ≡ ok c → (canonicalize w ≡ ok c) ↔ Same v w
canonicalize_iff v w {c} h =
    let from_v = Same-normalize v (canonicalize-some v h) in
    (
      λ k. Same-trans from_v (Same-symm (Same-normalize w (canonicalize-some w k))),
      λ s. some-canonicalize w (sym (normalize-Same s) ∙ canonicalize-some v h),
    )

-- A canonical form is its own canonical form, and is the value that it came from with the entries
-- of its objects reordered.
pub canonicalize_idem :
    (v : Json) {c : Json} → canonicalize v ≡ ok c → (canonicalize c ≡ ok c) × Same v c
canonicalize_idem v {c} h =
    let s = Same-normalize v (canonicalize-some v h) in
    (some-canonicalize c (sym (normalize-Same s) ∙ canonicalize-some v h), s)
