-- ===== src/Act.antt =====
-- Code that changes a state and may fail: an `async fn` of the source that returns `Result`, run to
-- its end. What was changed before an error stays changed, so the state comes back beside it.
-- `panic` is an unwinding `unwrap`, index or subtraction.
pub mod Triple
pub mod Total
use acmex.Base.{String, ◌≡◌, refl, Bool, true, false, Option, none, some}
use acmex.Error.{AcmeError}

pub data Outcome {ℓ} (A : Type ℓ) : Type ℓ where
  ok : A → Outcome A
  err : AcmeError → Outcome A
  panic : String → Outcome A

-- `?` on a result that is computed without a state
abbrev pub and_then {ℓ κ} : {A : Type ℓ} {B : Type κ} → Outcome A → (A → Outcome B) → Outcome B
and_then (ok a) f = f a
and_then (err e) f = err e
and_then (panic m) f = panic m

-- What a call into code outside the repository answers; its error is only ever displayed.
pub data Answer {ℓ} (A : Type ℓ) : Type ℓ where
  done : A → Answer A
  fault : String → Answer A

-- `map_err(..)`
abbrev pub outcome_of {ℓ} : {A : Type ℓ} → Answer A → (String → AcmeError) → Outcome A
outcome_of (done a) e = ok a
outcome_of (fault m) e = err (e m)

abbrev pub Act {ℓ κ} : Type ℓ → Type κ → Type (ℓ ⊔ κ)
Act S A = S → Outcome A × S

module _ {ℓ κ} {S : Type ℓ} {A : Type κ} where
  abbrev pub pure : A → Act S A
  pure a s = (ok a, s)

  abbrev pub fail : AcmeError → Act S A
  fail e s = (err e, s)

  abbrev pub lift : Outcome A → Act S A
  lift r s = (r, s)

  abbrev pub gets : (S → A) → Act S A
  gets f s = (ok (f s), s)

  -- `ok_or_else(..)?`
  abbrev pub ok_or : Option A → AcmeError → Act S A
  ok_or none e s = (err e, s)
  ok_or (some a) e s = (ok a, s)

  -- `map_err(..)?`
  abbrev pub or_raise : Answer A → (String → AcmeError) → Act S A
  or_raise (done a) e s = (ok a, s)
  or_raise (fault m) e s = (err (e m), s)

abbrev pub modify {ℓ} : {S : Type ℓ} → (S → S) → Act S (Unit {0})
modify f s = (ok tt, f s)

-- `if test { return Err(e) }`
abbrev pub refuse_if {ℓ} : {S : Type ℓ} → Bool → AcmeError → Act S (Unit {0})
refuse_if true e s = (err e, s)
refuse_if false e s = (ok tt, s)

module _ {ℓ κ υ} {S : Type ℓ} {A : Type κ} {B : Type υ} where
  abbrev pub resume : Outcome A → (A → Act S B) → Act S B
  resume (ok a) f s = f a s
  resume (err e) f s = (err e, s)
  resume (panic m) f s = (panic m, s)

  infixl 5 ◌>>=◌
  unfoldable pub ◌>>=◌ : Act S A → (A → Act S B) → Act S B
  ◌>>=◌ m f s = let (r, s') = m s in resume r f s'

module _ {ℓ κ} {S : Type ℓ} {B : Type κ} where
  infixl 5 ◌>>◌
  abbrev pub ◌>>◌ : Act S (Unit {0}) → Act S B → Act S B
  m >> k = m >>= λ _. k

-- `match m { Ok(a) => .., Err(e) => .. }` on an action; a panic passes through.
module _ {ℓ κ υ} {S : Type ℓ} {A : Type κ} {B : Type υ} where
  abbrev pub attend : Outcome A → (A → Act S B) → (AcmeError → Act S B) → Act S B
  attend (ok a) f g s = f a s
  attend (err e) f g s = g e s
  attend (panic m) f g s = (panic m, s)

  unfoldable pub catch : Act S A → (A → Act S B) → (AcmeError → Act S B) → Act S B
  catch m f g s = let (r, s') = m s in attend r f g s'
