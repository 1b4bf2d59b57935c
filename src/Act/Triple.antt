-- ===== src/Act/Triple.antt =====
-- Pre- and postconditions of actions, one rule for each way to build one.
use acmex.Base.{String, ◌≡◌, ◌↔◌, refl, subst, Bool, true, false, Option, none, some, if◌then◌else◌}
use acmex.Error.{AcmeError}
use acmex.Act.{
  Outcome, Answer, Act, ok, err, panic, done, fault, pure, fail, lift, gets, ok_or, or_raise,
  refuse_if, resume, and_then, attend, catch, ◌>>=◌,
}

-- `Q` of the result where the action returns, `E` where it fails or panics.
abbrev pub After {ℓ κ υ} :
    {S : Type ℓ} {A : Type κ} → (A → S → Type υ) → (S → Type υ) → Outcome A → S → Type υ
After Q E (ok a) s = Q a s
After Q E (err e) s = E s
After Q E (panic m) s = E s

pub record Triple {ℓ κ υ} {S : Type ℓ} {A : Type κ} (P : S → Type υ) (m : Act S A)
    (Q : A → S → Type υ) (E : S → Type υ) : Type (ℓ ⊔ υ) where
  pub run : (s : S) → P s → After Q E (m s).0 (m s).1

-- What a triple says of a run that has returned.
pub returned {ℓ κ υ} :
    {S : Type ℓ} {A : Type κ} {P : S → Type υ} {m : Act S A} {Q : A → S → Type υ} {E : S → Type υ}
    → Triple P m Q E
    → (s : S) → P s
    → (a : A) (s' : S) → m s ≡ (ok a, s')
    → Q a s'
returned {Q} {E} t s h a s' e = subst (λ out. After Q E out.0 out.1) e (t.run s h)

pub After-same {ℓ κ υ} :
    {S : Type ℓ} {A : Type κ} (P : S → Type υ) (r : Outcome A) (s : S) → After (λ _. P) P r s → P s
After-same P (ok a) s h = h
After-same P (err e) s h = h
After-same P (panic m) s h = h

-- An action keeps `P` on every path.
abbrev pub Keeps {ℓ κ υ} : {S : Type ℓ} {A : Type κ} → (S → Type υ) → Act S A → Type (ℓ ⊔ υ)
Keeps P m = Triple P m (λ _. P) P

module _ {ℓ κ υ ω} {S : Type ℓ} {A : Type κ} {B : Type υ} {E : S → Type ω} {Q : A → S → Type ω}
    {R : B → S → Type ω} where
  resume_rule :
      (f : A → Act S B)
      → ((a : A) → Triple (Q a) (f a) R E)
      → (r : Outcome A) (s : S) → After Q E r s
      → After R E (resume r f s).0 (resume r f s).1
  resume_rule f k (ok a) s h = (k a).run s h
  resume_rule f k (err e) s h = h
  resume_rule f k (panic m) s h = h

  pub bind_rule :
      {P : S → Type ω} {m : Act S A} {f : A → Act S B}
      → Triple P m Q E
      → ((a : A) → Triple (Q a) (f a) R E)
      → Triple P (m >>= f) R E
  unfolding ◌>>=◌
  bind_rule {m} {f} t k = record { run = λ s h. resume_rule f k (m s).0 (m s).1 (t.run s h) }

module _ {ℓ κ ω} {S : Type ℓ} {A : Type κ} {P : S → Type ω} where
  pub Keeps-pure : (a : A) → Keeps P (pure {S = S} a)
  Keeps-pure a = record { run = λ s h. h }

  pub Keeps-fail : (e : AcmeError) → Keeps P (fail {S = S} {A = A} e)
  Keeps-fail e = record { run = λ s h. h }

  pub Keeps-lift : (r : Outcome A) → Keeps P (lift {S = S} r)
  Keeps-lift (ok a) = record { run = λ s h. h }
  Keeps-lift (err e) = record { run = λ s h. h }
  Keeps-lift (panic m) = record { run = λ s h. h }

  pub Keeps-gets : (f : S → A) → Keeps P (gets f)
  Keeps-gets f = record { run = λ s h. h }

  pub Keeps-ok_or : (o : Option A) (e : AcmeError) → Keeps P (ok_or {S = S} o e)
  Keeps-ok_or none e = record { run = λ s h. h }
  Keeps-ok_or (some a) e = record { run = λ s h. h }

  pub Keeps-or_raise : (r : Answer A) (e : _ → AcmeError) → Keeps P (or_raise {S = S} r e)
  Keeps-or_raise (done a) e = record { run = λ s h. h }
  Keeps-or_raise (fault m) e = record { run = λ s h. h }

  pub Keeps-if : (b : Bool) {m n : Act S A} → Keeps P m → Keeps P n → Keeps P (if b then m else n)
  Keeps-if true km kn = km
  Keeps-if false km kn = kn

pub Keeps-refuse_if {ℓ ω} :
    {S : Type ℓ} {P : S → Type ω} (b : Bool) (e : AcmeError) → Keeps P (refuse_if {S = S} b e)
Keeps-refuse_if true e = record { run = λ s h. h }
Keeps-refuse_if false e = record { run = λ s h. h }

module _ {ℓ κ υ ω} {S : Type ℓ} {A : Type κ} {B : Type υ} {P : S → Type ω} where
  pub Keeps-bind :
      {m : Act S A} {f : A → Act S B} → Keeps P m → ((a : A) → Keeps P (f a)) → Keeps P (m >>= f)
  Keeps-bind km kf = bind_rule km kf

  attend_rule :
      (f : A → Act S B) (g : AcmeError → Act S B)
      → ((a : A) → Keeps P (f a))
      → ((e : AcmeError) → Keeps P (g e))
      → (r : Outcome A) (s : S) → After (λ _. P) P r s
      → After (λ _. P) P (attend r f g s).0 (attend r f g s).1
  attend_rule f g kf kg (ok a) s h = (kf a).run s h
  attend_rule f g kf kg (err e) s h = (kg e).run s h
  attend_rule f g kf kg (panic m) s h = h

  pub Keeps-catch :
      {m : Act S A} {f : A → Act S B} {g : AcmeError → Act S B}
      → Keeps P m
      → ((a : A) → Keeps P (f a))
      → ((e : AcmeError) → Keeps P (g e))
      → Keeps P (catch m f g)
  unfolding catch
  Keeps-catch {m} {f} {g} km kf kg = record {
    run = λ s h. attend_rule f g kf kg (m s).0 (m s).1 (km.run s h);
  }

module _ {ℓ κ υ} {S : Type ℓ} {A : Type κ} {B : Type υ} {Q : A → S → Type 0} {E : S → Type 0}
    {R : B → S → Type 0} where
  attended :
      (f : A → Act S B) (g : AcmeError → Act S B)
      → ((a : A) → Triple (Q a) (f a) R (λ _. Unit))
      → ((e : AcmeError) → Triple E (g e) R (λ _. Unit))
      → (r : Outcome A) (s : S) → After Q E r s
      → After R (λ _. Unit) (attend r f g s).0 (attend r f g s).1
  attended f g kf kg (ok a) s h = (kf a).run s h
  attended f g kf kg (err e) s h = (kg e).run s h
  attended f g kf kg (panic m) s h = tt

  -- Both a result and an error are gone on from.
  pub catch_rule :
      {P : S → Type 0} {m : Act S A} {f : A → Act S B} {g : AcmeError → Act S B}
      → Triple P m Q E
      → ((a : A) → Triple (Q a) (f a) R (λ _. Unit))
      → ((e : AcmeError) → Triple E (g e) R (λ _. Unit))
      → Triple P (catch m f g) R (λ _. Unit)
  unfolding catch
  catch_rule {m} {f} {g} t kf kg = record {
    run = λ s h. attended f g kf kg (m s).0 (m s).1 (t.run s h);
  }

-- Where the state is not changed, what holds before holds after, and `E` where it gives `E`.
module _ {ℓ ω} {S : Type ℓ} {P E : S → Type ω} (weaken : (s : S) → P s → E s) where
  pub refuse_rule : (b : Bool) (e : AcmeError) → Triple P (refuse_if {S = S} b e) (λ _. P) E
  refuse_rule true e = record { run = weaken }
  refuse_rule false e = record { run = λ s h. h }

module _ {ℓ κ ω} {S : Type ℓ} {A : Type κ} {P E : S → Type ω} (weaken : (s : S) → P s → E s) where
  pub lift_rule : (r : Outcome A) → Triple P (lift {S = S} r) (λ _. P) E
  lift_rule (ok a) = record { run = λ s h. h }
  lift_rule (err e) = record { run = weaken }
  lift_rule (panic m) = record { run = weaken }

  pub ok_or_rule :
      (Q : A → S → Type ω) (o : Option A) (e : AcmeError)
      → ((a : A) → o ≡ some a → (s : S) → P s → Q a s)
      → Triple P (ok_or {S = S} o e) Q E
  ok_or_rule Q none e give = record { run = weaken }
  ok_or_rule Q (some a) e give = record { run = give a refl }

-- The same, with what the branch that goes on knows.
module _ {ℓ ω} {S : Type ℓ} {P E : S → Type ω} (weaken : (s : S) → P s → E s) where
  pub refused_rule :
      (Q : Unit {0} → S → Type ω) (b : Bool) (e : AcmeError)
      → (b ≡ false → (s : S) → P s → Q tt s)
      → Triple P (refuse_if {S = S} b e) Q E
  refused_rule Q true e give = record { run = weaken }
  refused_rule Q false e give = record { run = give refl }

module _ {ℓ κ ω} {S : Type ℓ} {A : Type κ} {P E : S → Type ω} (weaken : (s : S) → P s → E s) where
  pub raised_rule :
      (Q : A → S → Type ω) (r : Answer A) (e : String → AcmeError)
      → ((a : A) → r ≡ done a → (s : S) → P s → Q a s)
      → Triple P (or_raise {S = S} r e) Q E
  raised_rule Q (done a) e give = record { run = give a refl }
  raised_rule Q (fault m) e give = record { run = weaken }

module _ {ℓ κ ω} {S : Type ℓ} {A : Type κ} {P E : S → Type ω} (weaken : (s : S) → P s → E s) where
  pub lifted_rule :
      (Q : A → S → Type ω) (r : Outcome A)
      → ((a : A) → r ≡ ok a → (s : S) → P s → Q a s)
      → Triple P (lift {S = S} r) Q E
  lifted_rule Q (ok a) give = record { run = give a refl }
  lifted_rule Q (err e) give = record { run = weaken }
  lifted_rule Q (panic m) give = record { run = weaken }

pub if_rule {ℓ κ ω} :
    {S : Type ℓ} {A : Type κ} {P E : S → Type ω} {Q : A → S → Type ω} {m n : Act S A} (b : Bool)
    → (b ≡ true → Triple P m Q E)
    → (b ≡ false → Triple P n Q E)
    → Triple P (if b then m else n) Q E
if_rule true km kn = km refl
if_rule false km kn = kn refl

-- Nothing is asked and nothing is told.
abbrev pub Anything {ℓ} : {S : Type ℓ} → S → Type 0
Anything s = Unit

told_nothing {ℓ κ} :
    {S : Type ℓ} {A : Type κ} (r : Outcome A) (s : S) → After (λ _. Anything) Anything r s
told_nothing (ok a) s = tt
told_nothing (err e) s = tt
told_nothing (panic m) s = tt

pub any_rule {ℓ κ} :
    {S : Type ℓ} {A : Type κ} {P : S → Type 0} (m : Act S A) → Triple P m (λ _. Anything) Anything
any_rule m = record { run = λ s h. told_nothing (m s).0 (m s).1 }

module _ {ℓ κ ω} {S : Type ℓ} {A : Type κ} {Q R : A → S → Type ω} where
  weakened :
      (E : S → Type ω)
      → ((a : A) (s : S) → Q a s → R a s)
      → (r : Outcome A) (s : S) → After Q E r s
      → After R E r s
  weakened E give (ok a) s h = give a s h
  weakened E give (err e) s h = h
  weakened E give (panic m) s h = h

  pub weaken_rule :
      {P E : S → Type ω} {m : Act S A}
      → ((a : A) (s : S) → Q a s → R a s)
      → Triple P m Q E
      → Triple P m R E
  weaken_rule {E} {m} give t = record { run = λ s h. weakened E give (m s).0 (m s).1 (t.run s h) }

pub ruleset keeps_rules = (
  Keeps-pure, Keeps-fail, Keeps-lift, Keeps-gets, Keeps-ok_or, Keeps-or_raise, Keeps-if,
  Keeps-refuse_if, Keeps-bind, Keeps-catch,
)

-- Two computations in a row succeed exactly where both do.
pub both_ok :
    (a b : Outcome (Unit {0})) → (and_then a (λ _. b) ≡ ok tt) ↔ ((a ≡ ok tt) × (b ≡ ok tt))
both_ok (ok tt) b = (λ h. (refl, h), λ h. h.1)
both_ok (err e) b = (λ h. cc, λ h. cc)
both_ok (panic m) b = (λ h. cc, λ h. cc)
