-- ===== src/Base/Dict.antt =====
-- `HashMap<String, V>` as an association list that holds each key once. The program iterates over
-- a map only to list or filter keys, in no stated order.
use Prim.Native.String.{String}
use mathlib.Core.Path.{◌≡◌}
use mathlib.Core.Bool.{Bool}
use mathlib.Core.List.{List, [], ◌∷◌}
use mathlib.Core.Option.{Option, none, some}
use native.Mathlib.Omega.{arith}
use text.Mathlib.Text.{◌==◌}
use text.Mathlib.TextEquality.{eq_iff}
use acmex.Base.Tests.{if◌then◌else◌}

abbrev pub Dict {ℓ} : Type ℓ → Type ℓ
Dict V = List (String × V)

module _ {ℓ} {V : Type ℓ} where
  -- `get`
  unfoldable pub get : Dict V → String → Option V
  get [] k = none
  get ((j, v) ∷ d) k = if j == k then some v else get d k

  -- `remove`
  unfoldable pub remove : Dict V → String → Dict V
  remove [] k = []
  remove ((j, v) ∷ d) k = let rest = remove d k in if j == k then rest else (j, v) ∷ rest

  -- `insert`
  unfoldable pub insert : Dict V → String → V → Dict V
  insert d k v = (k, v) ∷ remove d k

  -- `retain`, by a test on the values
  unfoldable pub retain : (V → Bool) → Dict V → Dict V
  retain p [] = []
  retain p ((j, v) ∷ d) = let rest = retain p d in if p v then (j, v) ∷ rest else rest

  -- `keys`
  unfoldable pub keys : Dict V → List String
  keys [] = []
  keys ((j, v) ∷ d) = j ∷ keys d

  pub get-remove :
      (d : Dict V) (k j : String) → get (remove d k) j ≡ (if k == j then none else get d j)
  unfolding get remove
  get-remove [] k j = ground arith
  get-remove ((i, v) ∷ d) k j = ground (arith, get-remove d k j, eq_iff i k, eq_iff i j, eq_iff k j)

  pub get-insert :
      (d : Dict V) (k j : String) (v : V)
      → get (insert d k v) j ≡ (if k == j then some v else get d j)
  unfolding get insert
  get-insert d k j v = ground (arith, get-remove d k j)

pub ruleset dict_laws = (get-remove, get-insert)
