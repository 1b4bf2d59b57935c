-- ===== src/Renewal/Window.antt =====
-- src/renewal/mod.rs: when a stored certificate is due for renewal. Instants are numbers of seconds
-- since the earliest one that a timestamp can hold.
use acmex.Base.{
  ℕ, ◌+◌, ◌-◌, ◌^◌, ◌≤◌, ◌<◌, ◌≡◌, ◌↔◌, String, ◌<>◌, Bool, true, ltb, leb, Option, none, some,
  List, [], ◌∷◌, if◌then◌else◌, arith,
}
use acmex.Error.{AcmeError}
use acmex.Act.{Act, Answer, Outcome, ok, err, done, and_then, outcome_of, lift, ◌>>=◌}
use acmex.Client.Issue.{CertificateBundle}
use acmex.Certificate.X509.{Parsers, parse_certificate_chain}
use acmex.Storage.Backend.{Backend}
use acmex.Storage.Certificates
use acmex.Storage.Certificates.{Codec}

-- the last second of a timestamp, from the first: -377705023201 to 253402207200
abbrev pub max_timestamp : ℕ
max_timestamp = 631107230401

-- `Timestamp::from_second`, of which the text of the error is the `jiff` crate's
abbrev pub from_second : ℕ → Answer ℕ
from_second secs = if leb secs max_timestamp then done secs else Answer.fault "out of range"

-- `as i64`: a number that does not fit is negative.
pub data Signed : Type 0 where
  plus minus : ℕ → Signed

abbrev pub as_i64 : ℕ → Signed
as_i64 n = if ltb n (2 ^ 63) then plus n else minus (2 ^ 64 - n)

-- an instant moved back; what is before the earliest one or after the last is out of range
abbrev pub moved_back : ℕ → Signed → Answer ℕ
moved_back t (plus n) = if leb n t then done (t - n) else Answer.fault "out of range"
moved_back t (minus n) = from_second (t + n)

abbrev first_certificate : List (List ℕ) → Outcome (List ℕ)
first_certificate [] = err (AcmeError.certificate "Empty certificate chain")
first_certificate (der ∷ rest) = ok der

-- the test, of an expiry and an instant
unfoldable pub due : ℕ → ℕ → ℕ → Outcome Bool
due renew_before expiry now =
    if leb expiry now
    then ok true
    else and_then
        (outcome_of (moved_back expiry (as_i64 renew_before))
          (λ e. AcmeError.certificate ("Invalid threshold timestamp: " <> e)))
        (λ threshold. ok (leb threshold now))

module _ (p : Parsers) where
  unfoldable pub certificate_expiry_timestamp : CertificateBundle → Outcome ℕ
  unfolding parse_certificate_chain
  certificate_expiry_timestamp bundle =
      and_then (parse_certificate_chain p bundle.certificate_pem) (λ chain.
        and_then (first_certificate chain) (λ der.
          and_then
            (outcome_of (p.from_der der)
              (λ e. AcmeError.certificate ("Failed to parse certificate: " <> e)))
            (λ cert.
              outcome_of (from_second cert.not_after)
                (λ e. AcmeError.certificate ("Invalid expiry timestamp: " <> e)))))

  -- The system's clock, in seconds since the epoch (the 377705023201st second), or its error.
  abbrev pub now_timestamp : Answer ℕ → Outcome ℕ
  now_timestamp (Answer.fault e) = err (AcmeError.certificate ("System time error: " <> e))
  now_timestamp (done secs) =
      outcome_of (from_second (377705023201 + secs))
        (λ e. AcmeError.certificate ("Invalid current timestamp: " <> e))

  module _ {S : Type 0} (codec : Codec) (backend : Backend S) (clock : Answer ℕ)
      (renew_before : ℕ) where
    abbrev judged : Option CertificateBundle → Outcome Bool
    judged none = ok true
    judged (some bundle) =
        and_then (certificate_expiry_timestamp bundle)
          (λ expiry. and_then (now_timestamp clock) (λ now. due renew_before expiry now))

    unfoldable pub needs_renewal : List String → Act S Bool
    unfolding certificate_expiry_timestamp due
    needs_renewal domains =
        Certificates.load codec backend domains >>= λ bundle. lift (judged bundle)

within : (n : ℕ) → n < 2 ^ 63 → as_i64 n ≡ plus n
within n h = ground (arith, h)

back : (t n : ℕ) → n ≤ t → moved_back t (plus n) ≡ done (t - n)
back t n h = ground (arith, h)

later_lem :
    (expiry now n : ℕ)
    → n ≤ expiry
    → (if leb expiry now then Outcome.ok true else ok (leb (expiry - n) now))
      ≡ ok (leb expiry (now + n))
later_lem expiry now n h = ground (arith, h)

-- For a window of less than 2^63 seconds that does not reach back before the earliest instant, the
-- test answers, and it says that a certificate is due exactly from the window's length before the
-- expiry on.
due_iff :
    (renew_before expiry now : ℕ)
    → renew_before < 2 ^ 63
    → renew_before ≤ expiry
    → (b : Bool) × (due renew_before expiry now ≡ ok b)
      × ((b ≡ true) ↔ (expiry ≤ now + renew_before))
unfolding due
due_iff renew_before expiry now small early = (
  leb expiry (now + renew_before),
  rw (within renew_before small, back expiry renew_before early)
      (later_lem expiry now renew_before early),
  (λ h. ground (arith, h), λ h. ground (arith, h)),
)
