-- ===== src/Base/Unique.antt =====
-- Association lists that hold each key once, as a hash map does.
use Prim.Native.String.{String}
use mathlib.Core.Path.{◌≡◌, refl, sym, ap, ◌∙◌}
use mathlib.Core.Bool.{Bool, true, false}
use mathlib.Core.List.{[], ◌∷◌}
use mathlib.Core.Option.{Option, none, some}
use text.Mathlib.Text.{◌==◌}
use text.Mathlib.TextEquality.{eq_iff}
use acmex.Base.Tests.{if◌then◌else◌}
use acmex.Base.Dict.{Dict, get, insert, remove, retain, get-remove}

module _ {ℓ} {V : Type ℓ} where
  abbrev pub IsUnique : Dict V → Type ℓ
  IsUnique [] = Unit
  IsUnique ((k, v) ∷ d) = (get d k ≡ none) × IsUnique d

  -- what `retain` leaves of a value
  abbrev pub kept : (V → Bool) → Option V → Option V
  kept p none = none
  kept p (some v) = if p v then some v else none

  if_none : (b : Bool) (o : Option V) → o ≡ none → (if b then none else o) ≡ none
  if_none true o e = refl
  if_none false o e = e

  remove-IsUnique : (d : Dict V) (k : String) → IsUnique d → IsUnique (remove d k)
  unfolding remove
  remove-IsUnique [] k h = h
  remove-IsUnique ((j, v) ∷ d) k h =
      kept_front (j == k) (get-remove d k j ∙ if_none (k == j) (get d j) h.0)
        (remove-IsUnique d k h.1)
    where
      kept_front :
          (b : Bool)
          → get (remove d k) j ≡ none
          → IsUnique (remove d k)
          → IsUnique (if b then remove d k else (j, v) ∷ remove d k)
      kept_front true e u = u
      kept_front false e u = (e, u)

  -- Inserting keeps the keys apart.
  pub insert-IsUnique : (d : Dict V) (k : String) (v : V) → IsUnique d → IsUnique (insert d k v)
  unfolding insert
  insert-IsUnique d k v h =
      (get-remove d k k ∙ rw ((eq_iff k k).1 refl) refl, remove-IsUnique d k h)

  get_front :
      (b same : Bool) (j k : String) (v : V) (d : Dict V) (p : V → Bool)
      → (j == k) ≡ same
      → p v ≡ b
      → get d j ≡ none
      → get (retain p d) k ≡ kept p (get d k)
      → get (if b then (j, v) ∷ retain p d else retain p d) k
        ≡ kept p (if same then some v else get d k)
  unfolding get
  get_front true true j k v d p s e h ih = rw (s, e) refl
  get_front true false j k v d p s e h ih = rw s ih
  get_front false true j k v d p s e h ih = ih ∙ rw (e, sym ((eq_iff j k).0 s), h) refl
  get_front false false j k v d p s e h ih = ih

  -- Retaining leaves, under each key, the value that passes the test.
  pub get-retain :
      (p : V → Bool) (d : Dict V) (k : String) → IsUnique d → get (retain p d) k ≡ kept p (get d k)
  unfolding get retain
  get-retain p [] k h = refl
  get-retain p ((j, v) ∷ d) k h =
      get_front (p v) (j == k) j k v d p refl refl h.0 (get-retain p d k h.1)

  retain_front :
      (b : Bool) (j : String) (v : V) (d : Dict V)
      → get d j ≡ none
      → IsUnique d
      → IsUnique (if b then (j, v) ∷ d else d)
  retain_front true j v d e u = (e, u)
  retain_front false j v d e u = u

  pub retain-IsUnique : (p : V → Bool) (d : Dict V) → IsUnique d → IsUnique (retain p d)
  unfolding retain
  retain-IsUnique p [] h = h
  retain-IsUnique p ((j, v) ∷ d) h =
      retain_front (p v) j v (retain p d) (get-retain p d j h.1 ∙ ap (kept p) h.0)
        (retain-IsUnique p d h.1)
