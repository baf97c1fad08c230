-- ===== src/Base/Maps.antt =====
-- A Map with strings for keys: its entries, in the order of insertion.
use Prim.Native.Nat.{◌+◌, ◌≤◌}
use Prim.Native.String.{String}
use mathlib.Core.Path.{◌≡◌, refl}
use mathlib.Core.Logic.{◌≢◌}
use mathlib.Core.Bool.{Bool}
use mathlib.Core.Option.{Option, none, some}
use mathlib.Core.List.{List, [], ◌∷◌}
use native.Mathlib.Omega.{arith}
use text.Mathlib.Text.{◌==◌ as str_eq}
use text.Mathlib.TextEquality.{eq_iff}
use rw_manager_backend.Base.Tests.{if◌then◌else◌, is_some}
use rw_manager_backend.Base.Lists.{length}

abbrev pub Entries : Type 0 → Type 0
Entries V = List (String × V)

module _ {V : Type 0} where
  unfoldable pub map_get : String → Entries V → Option V
  map_get k [] = none
  map_get k ((j, v) ∷ es) = let rest = map_get k es in if str_eq j k then some v else rest

  -- In place, or at the end.
  unfoldable pub map_set : String → V → Entries V → Entries V
  map_set k v [] = (k, v) ∷ []
  map_set k v ((j, w) ∷ es) =
      let rest = map_set k v es in if str_eq j k then (j, v) ∷ es else (j, w) ∷ rest

  unfoldable pub map_delete : String → Entries V → Entries V
  map_delete k [] = []
  map_delete k ((j, v) ∷ es) =
      let rest = map_delete k es in if str_eq j k then rest else (j, v) ∷ rest

  abbrev pub map_has : String → Entries V → Bool
  map_has k es = is_some (map_get k es)

  pub get-set_same : (k : String) (v : V) (es : Entries V) → map_get k (map_set k v es) ≡ some v
  unfolding map_get map_set
  get-set_same k v [] = ground (arith, eq_iff k k)
  get-set_same k v ((j, w) ∷ es) = ground (arith, get-set_same k v es)

  pub get-set_other :
      (k j : String) (v : V) (es : Entries V) → j ≢ k → map_get j (map_set k v es) ≡ map_get j es
  unfolding map_get map_set
  get-set_other k j v [] ne = ground (arith, eq_iff k j, ne)
  get-set_other k j v ((i, w) ∷ es) ne =
      ground (arith, eq_iff i k, eq_iff i j, get-set_other k j v es ne, ne)

  pub get-delete_same : (k : String) (es : Entries V) → map_get k (map_delete k es) ≡ none
  unfolding map_get map_delete
  get-delete_same k [] = refl
  get-delete_same k ((j, v) ∷ es) = ground (arith, get-delete_same k es)

  pub get-delete_other :
      (k j : String) (es : Entries V) → j ≢ k → map_get j (map_delete k es) ≡ map_get j es
  unfolding map_get map_delete
  get-delete_other k j [] ne = refl
  get-delete_other k j ((i, v) ∷ es) ne =
      ground (arith, eq_iff i k, eq_iff i j, get-delete_other k j es ne, ne)

  -- Setting a key that is there keeps the size; another one adds an entry.
  pub length-set :
      (k : String) (v : V) (es : Entries V)
      → length (map_set k v es) ≡ (if map_has k es then length es else length es + 1)
  unfolding map_get map_set
  length-set k v [] = ground arith
  length-set k v ((j, w) ∷ es) = ground (arith, length-set k v es)

  pub length-delete-le : (k : String) (es : Entries V) → length (map_delete k es) ≤ length es
  unfolding map_delete
  length-delete-le k [] = ground arith
  length-delete-le k ((j, v) ∷ es) = ground (arith, length-delete-le k es)
