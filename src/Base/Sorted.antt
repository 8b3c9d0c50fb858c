-- ===== src/Base/Sorted.antt =====
-- Python's `sorted` on the keys of a dict.
use Prim.Native.Nat.{Ordering}
use Prim.Native.String.{String, compare}
use mathlib.Core.Bool.{Bool, true, false}
use mathlib.Core.List.{[], ◌∷◌}
use hse_graduate_qualificati.Base.Tests.{if◌then◌else◌}
use hse_graduate_qualificati.Base.Dict.{Dict}

abbrev pub before : String → String → Bool
before k j = elim (compare k j) [ Ordering.lt ↦ true | _ ↦ false ]

-- The items in the order of their keys, as `sorted(d)` and `sort_keys=True` have it.
unfoldable pub insert_sorted {ℓ} : {V : Type ℓ} → String → V → Dict V → Dict V
insert_sorted k v [] = (k, v) ∷ []
insert_sorted k v ((j, w) ∷ d) =
    if before k j then (k, v) ∷ (j, w) ∷ d else (j, w) ∷ insert_sorted k v d

unfoldable pub sort_items {ℓ} : {V : Type ℓ} → Dict V → Dict V
unfolding insert_sorted
sort_items [] = []
sort_items ((k, v) ∷ d) = insert_sorted k v (sort_items d)
