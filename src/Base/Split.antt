-- ===== src/Base/Split.antt =====
-- `str::split('.')`.
use Prim.Native.Char.{Char, code}
use Prim.Native.String.append
use Prim.Native.String.{String, [], ◌∷◌, ◌++◌ as ◌<>◌}
use mathlib.Core.Path.{◌≡◌, refl, ap, ◌∙◌}
use mathlib.Core.Bool.{Bool, true, false}
use mathlib.Core.List.{List, [] as nil, ◌∷◌ as ◌:+◌}
use native.Mathlib.Omega.{arith}
use Prim.Native.Nat.{ℕ}
use acmex.Base.Tests.{eqb, if◌then◌else◌}

abbrev pub is_dot : Char → Bool
is_dot c = eqb (code c) 46

unfoldable pub has_dot : String → Bool
has_dot [] = false
has_dot (c ∷ s) = let rest = has_dot s in if is_dot c then true else rest

-- one more character in the first part
abbrev pub longer : Char → List String → List String
longer c nil = (c ∷ []) :+ nil
longer c (part :+ parts) = (c ∷ part) :+ parts

unfoldable pub split_dot : String → List String
split_dot [] = [] :+ nil
split_dot (c ∷ s) = let rest = split_dot s in if is_dot c then [] :+ rest else longer c rest

-- A text without a dot is one part,
pub split_dot-whole : (s : String) → has_dot s ≡ false → split_dot s ≡ s :+ nil
unfolding has_dot split_dot
split_dot-whole [] h = refl
split_dot-whole (c ∷ s) h = ground (arith, split_dot-whole s, h)

dot_front : (t : String) → "." <> t ≡ "." ∷ t
dot_front t = append.cons "." [] t ∙ ap (λ u. "." ∷ u) (append.nil t)

front_step :
    (dot rest : Bool) (c : Char) (s : String) (parts split : List String)
    → (if dot then true else rest) ≡ false
    → (rest ≡ false → split ≡ s :+ parts)
    → (if dot then [] :+ split else longer c split) ≡ (c ∷ s) :+ parts
front_step true rest c s parts split h k = cc
front_step false rest c s parts split h k = ap (longer c) (k h)

-- and in front of a dot it is the first part.
pub split_dot-front :
    (s t : String) → has_dot s ≡ false → split_dot (s <> ("." <> t)) ≡ s :+ split_dot t
unfolding has_dot split_dot
split_dot-front [] t h = ap split_dot (append.nil ("." <> t) ∙ dot_front t)
split_dot-front (c ∷ s) t h =
    ap split_dot (append.cons c s ("." <> t))
    ∙ front_step (is_dot c) (has_dot s) c s (split_dot t) _ h (split_dot-front s t)

-- `str::split` at a character, given by its code
unfoldable pub split_at : ℕ → String → List String
split_at sep [] = [] :+ nil
split_at sep (c ∷ s) =
    let rest = split_at sep s in if eqb (code c) sep then [] :+ rest else longer c rest
