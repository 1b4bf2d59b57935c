-- ===== src/Act/Total.antt =====
-- Actions that do not panic, and actions that return.
use acmex.Base.{String, Bool, true, false, Option, none, some, if◌then◌else◌}
use acmex.Error.{AcmeError}
use acmex.Act.{
  Outcome, Answer, Act, ok, err, panic, done, fault, pure, gets, ok_or, or_raise, resume, attend,
  catch, ◌>>=◌,
}

module _ {ℓ κ} {S : Type ℓ} {A : Type κ} (P : S → Type 0) where
  abbrev pub Survives : Outcome A → S → Type 0
  Survives (ok a) s = P s
  Survives (err e) s = P s
  Survives (panic m) s = ⊥

  -- The action keeps `P` and does not panic.
  pub record Calm (m : Act S A) : Type (ℓ ⊔ κ) where
    pub run : (s : S) → P s → Survives (m s).0 (m s).1

  abbrev pub Returns : (A → Type 0) → Outcome A → S → Type 0
  Returns Q (ok a) s = Q a × P s
  Returns Q (err e) s = ⊥
  Returns Q (panic m) s = ⊥

  -- The action keeps `P` and returns a value of which `Q` holds.
  pub record Total (m : Act S A) (Q : A → Type 0) : Type (ℓ ⊔ κ) where
    pub run : (s : S) → P s → Returns Q (m s).0 (m s).1

  pub Calm-or_raise : (r : Answer A) (e : String → AcmeError) → Calm (or_raise r e)
  Calm-or_raise (done a) e = record { run = λ s h. h }
  Calm-or_raise (fault m) e = record { run = λ s h. h }

  pub Calm-ok_or : (o : Option A) (e : AcmeError) → Calm (ok_or o e)
  Calm-ok_or none e = record { run = λ s h. h }
  Calm-ok_or (some a) e = record { run = λ s h. h }

  pub Calm-if : (b : Bool) {m n : Act S A} → Calm m → Calm n → Calm (if b then m else n)
  Calm-if true km kn = km
  Calm-if false km kn = kn

  pub Calm-gets : (f : S → A) → Calm (gets f)
  Calm-gets f = record { run = λ s h. h }

  pub Total-pure : (Q : A → Type 0) (a : A) → Q a → Total (pure a) Q
  Total-pure Q a q = record { run = λ s h. (q, h) }

module _ {ℓ κ} {S : Type ℓ} {A : Type κ} (P : S → Type 0) {Q R : A → Type 0} where
  returned_weaker :
      ((a : A) → Q a → R a) → (r : Outcome A) (s : S) → Returns P Q r s → Returns P R r s
  returned_weaker give (ok a) s h = (give a h.0, h.1)
  returned_weaker give (err e) s h = h
  returned_weaker give (panic m) s h = h

  pub Total-weaken : {m : Act S A} → ((a : A) → Q a → R a) → Total P m Q → Total P m R
  Total-weaken {m} give t = record { run = λ s h. returned_weaker give (m s).0 (m s).1 (t.run s h) }

module _ {ℓ κ υ} {S : Type ℓ} {A : Type κ} {B : Type υ} {P : S → Type 0} where
  resume_calm :
      (f : A → Act S B)
      → ((a : A) → Calm P (f a))
      → (r : Outcome A) (s : S) → Survives P r s
      → Survives P (resume r f s).0 (resume r f s).1
  resume_calm f k (ok a) s h = (k a).run s h
  resume_calm f k (err e) s h = h
  resume_calm f k (panic m) s h = elim h [ ]

  pub Calm-bind :
      {m : Act S A} {f : A → Act S B} → Calm P m → ((a : A) → Calm P (f a)) → Calm P (m >>= f)
  unfolding ◌>>=◌
  Calm-bind {m} {f} t k = record { run = λ s h. resume_calm f k (m s).0 (m s).1 (t.run s h) }

  resume_total :
      (Q : A → Type 0) (R : B → Type 0) (f : A → Act S B)
      → ((a : A) → Q a → Total P (f a) R)
      → (r : Outcome A) (s : S) → Returns P Q r s
      → Returns P R (resume r f s).0 (resume r f s).1
  resume_total Q R f k (ok a) s h = (k a h.0).run s h.1
  resume_total Q R f k (err e) s h = elim h [ ]
  resume_total Q R f k (panic m) s h = elim h [ ]

  pub Total-bind :
      {Q : A → Type 0} {R : B → Type 0} {m : Act S A} {f : A → Act S B}
      → Total P m Q
      → ((a : A) → Q a → Total P (f a) R)
      → Total P (m >>= f) R
  unfolding ◌>>=◌
  Total-bind {Q} {R} {m} {f} t k = record {
    run = λ s h. resume_total Q R f k (m s).0 (m s).1 (t.run s h);
  }

  attend_calm :
      (R : B → Type 0) (f : A → Act S B) (g : AcmeError → Act S B)
      → ((a : A) → Total P (f a) R)
      → ((e : AcmeError) → Total P (g e) R)
      → (r : Outcome A) (s : S) → Survives P r s
      → Returns P R (attend r f g s).0 (attend r f g s).1
  attend_calm R f g kf kg (ok a) s h = (kf a).run s h
  attend_calm R f g kf kg (err e) s h = (kg e).run s h
  attend_calm R f g kf kg (panic m) s h = elim h [ ]

  -- Where errors are caught and nothing panics, there is a result.
  pub Total-catch :
      {R : B → Type 0} {m : Act S A} {f : A → Act S B} {g : AcmeError → Act S B}
      → Calm P m
      → ((a : A) → Total P (f a) R)
      → ((e : AcmeError) → Total P (g e) R)
      → Total P (catch m f g) R
  unfolding catch
  Total-catch {R} {m} {f} {g} t kf kg = record {
    run = λ s h. attend_calm R f g kf kg (m s).0 (m s).1 (t.run s h);
  }

  attend_total :
      (Q : A → Type 0) (R : B → Type 0) (f : A → Act S B) (g : AcmeError → Act S B)
      → ((a : A) → Q a → Total P (f a) R)
      → (r : Outcome A) (s : S) → Returns P Q r s
      → Returns P R (attend r f g s).0 (attend r f g s).1
  attend_total Q R f g k (ok a) s h = (k a h.0).run s h.1
  attend_total Q R f g k (err e) s h = elim h [ ]
  attend_total Q R f g k (panic m) s h = elim h [ ]

  -- What returns is never caught.
  pub Total-uncaught :
      {Q : A → Type 0} {R : B → Type 0} {m : Act S A} {f : A → Act S B} (g : AcmeError → Act S B)
      → Total P m Q
      → ((a : A) → Q a → Total P (f a) R)
      → Total P (catch m f g) R
  unfolding catch
  Total-uncaught {Q} {R} {m} {f} g t k = record {
    run = λ s h. attend_total Q R f g k (m s).0 (m s).1 (t.run s h);
  }

pub ruleset calm_rules = (Calm-or_raise, Calm-ok_or, Calm-if, Calm-gets, Calm-bind)
