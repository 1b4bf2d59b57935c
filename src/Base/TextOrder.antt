-- ===== src/Base/TextOrder.antt =====
-- The order of texts, by which the standard library sorts them.
use Prim.Native.Char.{Char, code}
use Prim.Native.Nat.{ℕ, ◌<◌, Ordering, compare as compare_ℕ}
use Prim.Native.String.compare
use Prim.Native.String.{String, [], ◌∷◌, compare, then}
use mathlib.Core.Path.{◌≡◌, refl, sym, ap, ◌∙◌}
use mathlib.Core.Logic.{◌⊎◌, inl, inr}
use mathlib.Core.Bool.{Bool, true}
use native.Mathlib.Omega.{arith, compare-lt, compare-eq, compare-gt}
use text.Mathlib.Text.{is_le}
use text.Mathlib.TextEquality.{Char-path}

abbrev pub le : String → String → Bool
le s t = is_le (compare s t)

-- Two comparisons, one after the other.
first_decides :
    (o r : Ordering)
    → is_le (then o r) ≡ true
    → (o ≡ Ordering.lt) ⊎ ((o ≡ Ordering.eq) × (is_le r ≡ true))
first_decides Ordering.lt r h = inl refl
first_decides Ordering.eq r h = inr (refl, h)
first_decides Ordering.gt r h = cc

is_less : (a b : ℕ) → a < b → compare_ℕ a b ≡ Ordering.lt
is_less a b h = known (compare_ℕ a b) refl
  where
    known : (o : Ordering) → compare_ℕ a b ≡ o → compare_ℕ a b ≡ Ordering.lt
    known Ordering.lt e = e
    known Ordering.eq e = absurd (omega (arith, h, compare-eq a b e))
    known Ordering.gt e = absurd (omega (arith, h, compare-gt a b e))

is_equal : (a b : ℕ) → a ≡ b → compare_ℕ a b ≡ Ordering.eq
is_equal a b h = known (compare_ℕ a b) refl
  where
    known : (o : Ordering) → compare_ℕ a b ≡ o → compare_ℕ a b ≡ Ordering.eq
    known Ordering.lt e = absurd (omega (arith, h, compare-lt a b e))
    known Ordering.eq e = e
    known Ordering.gt e = absurd (omega (arith, h, compare-gt a b e))

-- A text that begins with a character is at most another in two cases.
module _ (c d : Char) (s t : String) where
  cons_cases : le (c ∷ s) (d ∷ t) ≡ true → (code c < code d) ⊎ ((code c ≡ code d) × (le s t ≡ true))
  cons_cases h =
      elim (first_decides (compare_ℕ (code c) (code d)) (compare s t)
        (sym (ap is_le (compare.cons-cons c d s t)) ∙ h)) [
          | inl less ↦ inl (compare-lt (code c) (code d) less)
          | inr (same, rest) ↦ inr (compare-eq (code c) (code d) same, rest)
        ]

  cons_less : code c < code d → le (c ∷ s) (d ∷ t) ≡ true
  cons_less h =
      ap is_le (compare.cons-cons c d s t)
      ∙ ap (λ o. is_le (then o (compare s t))) (is_less (code c) (code d) h)

  cons_same : code c ≡ code d → le s t ≡ true → le (c ∷ s) (d ∷ t) ≡ true
  cons_same e h =
      ap is_le (compare.cons-cons c d s t)
      ∙ ap (λ o. is_le (then o (compare s t))) (is_equal (code c) (code d) e)
      ∙ h

cons-not-nil : (c : Char) (s : String) → le (c ∷ s) [] ≡ true → ⊥
cons-not-nil c s h = let e = sym (ap is_le (compare.cons-nil c s)) ∙ h in cc

three_ways : (a b : ℕ) → (a < b) ⊎ ((a ≡ b) ⊎ (b < a))
three_ways a b = ground arith

pub le_trans : (s t u : String) → le s t ≡ true → le t u ≡ true → le s u ≡ true
le_trans [] t [] h k = refl
le_trans [] t (e ∷ u) h k = ap is_le (compare.nil-cons e u)
le_trans (c ∷ s) [] u h k = absurd (cons-not-nil c s h)
le_trans (c ∷ s) (d ∷ t) [] h k = absurd (cons-not-nil d t k)
le_trans (c ∷ s) (d ∷ t) (e ∷ u) h k =
    chain (cons_cases c d s t h) (cons_cases d e t u k) (le_trans s t u)
  where
    chain :
        (code c < code d) ⊎ ((code c ≡ code d) × (le s t ≡ true))
        → (code d < code e) ⊎ ((code d ≡ code e) × (le t u ≡ true))
        → (le s t ≡ true → le t u ≡ true → le s u ≡ true)
        → le (c ∷ s) (e ∷ u) ≡ true
    chain (inl a) (inl b) ih = cons_less c e s u (omega (arith, a, b))
    chain (inl a) (inr b) ih = cons_less c e s u (omega (arith, a, b.0))
    chain (inr a) (inl b) ih = cons_less c e s u (omega (arith, a.0, b))
    chain (inr a) (inr b) ih = cons_same c e s u (a.0 ∙ b.0) (ih a.1 b.1)

pub le_total : (s t : String) → (le s t ≡ true) ⊎ (le t s ≡ true)
le_total [] [] = inl refl
le_total [] (d ∷ t) = inl (ap is_le (compare.nil-cons d t))
le_total (c ∷ s) [] = inr (ap is_le (compare.nil-cons c s))
le_total (c ∷ s) (d ∷ t) = decide (three_ways (code c) (code d)) (le_total s t)
  where
    decide :
        (code c < code d) ⊎ ((code c ≡ code d) ⊎ (code d < code c))
        → (le s t ≡ true) ⊎ (le t s ≡ true)
        → (le (c ∷ s) (d ∷ t) ≡ true) ⊎ (le (d ∷ t) (c ∷ s) ≡ true)
    decide (inl a) r = inl (cons_less c d s t a)
    decide (inr (inl e)) (inl r) = inl (cons_same c d s t e r)
    decide (inr (inl e)) (inr r) = inr (cons_same d c t s (sym e) r)
    decide (inr (inr b)) r = inr (cons_less d c t s b)

pub le_antisym : (s t : String) → le s t ≡ true → le t s ≡ true → s ≡ t
le_antisym [] [] h k = refl
le_antisym [] (d ∷ t) h k = absurd (cons-not-nil d t k)
le_antisym (c ∷ s) [] h k = absurd (cons-not-nil c s h)
le_antisym (c ∷ s) (d ∷ t) h k = both (cons_cases c d s t h) (cons_cases d c t s k) (le_antisym s t)
  where
    both :
        (code c < code d) ⊎ ((code c ≡ code d) × (le s t ≡ true))
        → (code d < code c) ⊎ ((code d ≡ code c) × (le t s ≡ true))
        → (le s t ≡ true → le t s ≡ true → s ≡ t)
        → c ∷ s ≡ d ∷ t
    both (inl a) (inl b) ih = absurd (omega (arith, a, b))
    both (inl a) (inr b) ih = absurd (omega (arith, a, b.0))
    both (inr a) (inl b) ih = absurd (omega (arith, a.0, b))
    both (inr a) (inr b) ih = λ i. Char-path c d a.0 i ∷ ih a.1 b.1 i
