-- ===== src/Base/Stores.antt =====
-- `WeakMap`s: the entry of each object, where it has one. An object is a number, its place in the
-- order in which the objects were made.
use Prim.Native.Nat.{ℕ}
use mathlib.Core.Option.{Option, none, some}
use map_data_aggregation_enh.Base.Tests.{eqb, if◌then◌else◌}

abbrev pub Store : Type 0 → Type 0
Store V = ℕ → Option V

module _ {V : Type 0} where
  abbrev pub no_entries : Store V
  no_entries k = none

  -- `map.set(object, value)`, `map.delete(object)`
  abbrev pub set : ℕ → V → Store V → Store V
  set object value map k = if eqb object k then some value else map k

  abbrev pub delete : ℕ → Store V → Store V
  delete object map k = if eqb object k then none else map k

  -- A change of the value that the map holds for an object.
  abbrev pub change : ℕ → (V → V) → Store V → Store V
  change object f map k =
      if eqb object k then (elim (map k) [ none ↦ none | some v ↦ some (f v) ]) else map k
