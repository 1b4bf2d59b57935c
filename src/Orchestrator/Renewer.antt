-- ===== src/Orchestrator/Renewer.antt =====
-- src/orchestrator/renewer.rs: looking through the stored certificates for those that are due. Instants
-- are numbers of seconds since the earliest one that a timestamp can hold.
use acmex.Base.{
  ℕ, suc, ◌+◌, ◌-◌, ◌*◌, ◌/◌, ◌^◌, ◌<◌, ◌≡◌, ◌↔◌, refl, inl, inr, Bool-cases, String, Bool, true,
  false, leb, Option, none, some, List, [], ◌∷◌, if◌then◌else◌, arith,
}
use acmex.Act.{Act, Answer, done, fault, pure, ◌>>=◌}
use acmex.Certificate.X509.{X509, Parsers}
use acmex.Renewal.Window.{Signed, plus, minus, as_i64}
use acmex.Storage.Backend.{Backend}

-- `i64` division, which rounds towards zero
abbrev pub days_left : ℕ → ℕ → Signed
days_left expiry now =
    if leb now expiry then plus ((expiry - now) / 86400) else minus ((now - expiry) / 86400)

abbrev pub at_most : Signed → Signed → Bool
at_most (plus a) (plus b) = leb a b
at_most (plus a) (minus b) = leb (a + b) 0
at_most (minus a) (plus b) = true
at_most (minus a) (minus b) = leb b a

abbrev pub due_by : ℕ → ℕ → Answer X509 → Bool
due_by renew_before_days now (done cert) =
    at_most (days_left cert.not_after now) (as_i64 renew_before_days)
due_by renew_before_days now (fault e) = false

-- The clock is read for each certificate.
module _ {S : Type 0} (p : Parsers) (backend : Backend S) (clock : List ℕ → ℕ)
    (renew_before_days : ℕ) where
  unfoldable pub needs_renewal : List ℕ → Bool
  needs_renewal cert_der = due_by renew_before_days (clock cert_der) (p.from_der cert_der)

  -- The keys whose certificates are due: each is only logged.
  abbrev noted : String → Option (List ℕ) → List String → List String
  noted key none rest = rest
  noted key (some bytes) rest = if needs_renewal bytes then key ∷ rest else rest

  unfoldable pub look_through : List String → Act S (List String)
  unfolding needs_renewal
  look_through [] = pure []
  look_through (key ∷ keys) = do
    found ← Backend.load backend key
    rest ← look_through keys
    pure (noted key found rest)

  unfoldable pub execute : Act S (Unit {0})
  unfolding look_through
  execute = do keys ← Backend.list backend "cert:"; _ ← look_through keys; pure tt

  signed : (n : ℕ) → n < 2 ^ 63 → as_i64 n ≡ plus n
  signed n h = ground (arith, h)

  days_iff :
      (expiry now days : ℕ)
      → (at_most (days_left expiry now) (plus days) ≡ true) ↔ (expiry < now + 86400 * suc days)
  days_iff expiry now days = elim (Bool-cases (leb now expiry)) [
    | inl later ↦ rw later (λ h. ground (arith, h, later), λ h. ground (arith, h, later))
    | inr over ↦ rw over (λ h. ground (arith, over), λ h. refl)
  ]

  -- For a window of less than 2^63 days, a certificate that parses needs renewal exactly when fewer
  -- than one day more than the window is left, so also when it has expired.
  needs_renewal_iff :
      (cert_der : List ℕ) (cert : X509)
      → p.from_der cert_der ≡ done cert
      → renew_before_days < 2 ^ 63
      → (needs_renewal cert_der ≡ true)
        ↔ (cert.not_after < clock cert_der + 86400 * suc renew_before_days)
  unfolding needs_renewal
  needs_renewal_iff cert_der cert h small =
      rw (h, signed renew_before_days small)
        (days_iff cert.not_after (clock cert_der) renew_before_days)
