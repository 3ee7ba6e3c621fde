-- ===== src/Core/SameValues/Examples.antt =====
-- Two orders of the same operations.
use mathlib.Core.List.{Permᴰ}
use map_data_aggregation_enh.Base.{String, ◌≡◌, ◌↔◌, true, [], ◌∷◌}
use map_data_aggregation_enh.Core.SameValues.{same_values, same_values_iff}

same_values_iff_example :
    (same_values ("read" ∷ "put" ∷ "put" ∷ []) ("put" ∷ "read" ∷ "put" ∷ []) ≡ true)
    ↔ Permᴰ {A = String} ("read" ∷ "put" ∷ "put" ∷ []) ("put" ∷ "read" ∷ "put" ∷ [])
same_values_iff_example =
    same_values_iff ("read" ∷ "put" ∷ "put" ∷ []) ("put" ∷ "read" ∷ "put" ∷ [])
