-- ===== src/Core/Identity.antt =====
-- packages/core/src/identity.ts: canonical JSON and the keys that are digests of it. A canonical
-- text is represented by the value that it prints, whose objects have their entries in key order.
pub mod Same
pub mod Canonical
pub mod Keys
mod Examples
use map_data_aggregation_enh.Base.{
  ℕ, String, Bool, true, false, not, ◌||◌, List, [], ◌∷◌, Option, none, some, is_empty, ◌==◌,
  Result, ok, err, refuse, ◌>>=◌, ◌>>◌, if◌then◌else◌,
}
use map_data_aggregation_enh.Base.Numbers.{Num, nat, neg, nan, bad_positive}
use map_data_aggregation_enh.Base.TextOrder.{text_lt}
use map_data_aggregation_enh.Core.Platform.{Platform}

mutual
  pub data Json : Type 0 where
    null : Json
    bool : Bool → Json
    num : Num → Json
    str : String → Json
    arr : Items → Json
    obj : Fields → Json

  pub data Items : Type 0 where
    nil : Items
    cons : Json → Items → Items

  pub data Fields : Type 0 where
    end : Fields
    field : String → Json → Fields → Fields

-- The entry at its place among entries sorted by key.
unfoldable pub insert_field : String → Json → Fields → Fields
insert_field k v end = field k v end
insert_field k v (field j w fs) =
    let rest = insert_field k v fs in
    if text_lt j k then field j w rest else field k v (field j w fs)

pub data IdentityError : Type 0 where
  non_finite_number : IdentityError
  bad_text bad_version : String → IdentityError

-- The normal forms of the parts are put together, if there are all.
abbrev pub with_item : Option Json → Option Items → Option Items
with_item (some v) (some vs) = some (cons v vs)
with_item _ _ = none

abbrev pub with_field : String → Option Json → Option Fields → Option Fields
with_field k (some v) (some fs) = some (insert_field k v fs)
with_field k _ _ = none

abbrev pub as_array : Option Items → Option Json
as_array (some vs) = some (arr vs)
as_array none = none

abbrev pub as_object : Option Fields → Option Json
as_object (some fs) = some (obj fs)
as_object none = none

-- `none` where the source throws on a number that is not finite. The source sorts the entries and
-- then normalizes the children; the children are the same in either order.
unfoldable mutual
  pub normalize : Json → Option Json
  normalize null = some null
  normalize (bool b) = some (bool b)
  normalize (num nan) = none
  normalize (num (nat n)) = some (num (nat n))
  normalize (num (neg n)) = some (num (neg n))
  normalize (str s) = some (str s)
  normalize (arr vs) = as_array (normalize_items vs)
  normalize (obj fs) = as_object (normalize_fields fs)

  pub normalize_items : Items → Option Items
  normalize_items nil = some nil
  normalize_items (cons v vs) = with_item (normalize v) (normalize_items vs)

  pub normalize_fields : Fields → Option Fields
  normalize_fields end = some end
  normalize_fields (field k v fs) = with_field k (normalize v) (normalize_fields fs)

unfoldable pub canonicalize : Json → Result IdentityError Json
canonicalize v = elim (normalize v) [ none ↦ err non_finite_number | some w ↦ ok w ]

-- `!value || value.trim() !== value || value.normalize("NFC") !== value`
abbrev pub bad_identity_text : Platform → String → Bool
bad_identity_text p s = is_empty s || not (p.trim s == s) || not (p.normalize_nfc s == s)

unfoldable pub assert_identity_text :
    Platform → List (String × String) → Result IdentityError (Unit {0})
assert_identity_text p [] = ok tt
assert_identity_text p ((label, value) ∷ rest) = do
  refuse (bad_identity_text p value) (bad_text label)
  assert_identity_text p rest

unfoldable pub assert_positive_version : String → Num → Result IdentityError (Unit {0})
assert_positive_version label v = refuse (bad_positive v) (bad_version label)
