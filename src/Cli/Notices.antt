-- ===== src/Cli/Notices.antt =====
-- What the daemon of src/cli/commands/daemon.rs tells, and when a certificate is due for it.
use acmex.Base.{
  ℕ, zero, suc, ◌+◌, ◌-◌, ◌≤◌, ◌<◌, String, ◌≡◌, ◌↔◌, refl, sym, subst, ap, Bool, true, false,
  Option, none, some, List, [], ◌∷◌, All, length, arith, leb, ltb, ltb→lt, leb→le, if◌then◌else◌,
}
use acmex.Error.{AcmeError}
use acmex.Act.{Outcome, ok, err, panic, pure, fail, ◌>>◌, or_raise}
use acmex.Act.Total.{
  Calm, Survives, Total, Returns, Total-pure, Total-bind, Total-catch, Total-uncaught, Total-weaken,
  Calm-if, calm_rules,
}
use acmex.Cli.Machine.{
  Machine, Notice, renewal, failure, exists, read, fs_call, now, next_fault, next_time, join_path,
}
use acmex.Cli.Pem.{Tools, parse_not_after}
use acmex.Cli.Daemon.{
  Wake, Loop, running, stopped, sigterm, sigint, slept, within, check_certificate_expiry, count_if,
  check_domain, check_from, check_and_renew_certificates, renewed, tell, check, serve,
}

-- What the wakes make of the loop: a signal stops it.
abbrev pub ended : List Wake → Loop
ended [] = running
ended (sigterm ∷ wakes) = stopped
ended (sigint ∷ wakes) = stopped
ended (slept ∷ wakes) = ended wakes

-- the wakes up to the first signal
abbrev pub heard : List Wake → List Wake
heard [] = []
heard (sigterm ∷ wakes) = sigterm ∷ []
heard (sigint ∷ wakes) = sigint ∷ []
heard (slept ∷ wakes) = slept ∷ heard wakes

-- A notice of at most so many renewals, and of one at least, to the address.
abbrev pub Announced : Option String → ℕ → Notice → Type 0
Announced email most (renewal to n) = (email ≡ some to) × (1 ≤ n) × (n ≤ most)
Announced email most (failure to e) = ⊥

module _ {Key : Type 0} (t : Tools Key) (email : Option String) (most : ℕ) where
  abbrev Told : Machine → Type 0
  Told s = All (Announced email most) s.notices

  fs_call-Calm : Calm Told fs_call
  unfolding fs_call
  fs_call-Calm = record { run = λ s h. called s.faults s h }
    where
      called :
          (faults : List (Option String)) (s : Machine)
          → Told s
          → let (a, s') = next_fault faults s in
            Survives Told (or_raise a AcmeError.io s').0 (or_raise a AcmeError.io s').1
      called [] s h = h
      called (none ∷ rest) s h = h
      called (some e ∷ rest) s h = h

  now-Calm : Calm Told now
  unfolding now
  now-Calm = record { run = λ s h. timed s.clock s h }
    where
      timed : (ts : List ℕ) (s : Machine) → Told s → Told (next_time ts s).1
      timed [] s h = h
      timed (time ∷ rest) s h = h

  read-Calm : (path : String) → Calm Told (read path)
  unfolding read
  read-Calm path = search (calm_rules, fs_call-Calm)

  within-Calm : (na secs before : ℕ) → Calm Told (within t na secs before)
  unfolding within
  within-Calm na secs before =
      Calm-if Told (ltb secs na) (record { run = λ s h. h }) (record { run = λ s h. h })

  check_certificate_expiry-Calm :
      (path : String) (before : ℕ) → Calm Told (check_certificate_expiry t path before)
  unfolding check_certificate_expiry parse_not_after
  check_certificate_expiry-Calm path before =
      search (calm_rules, read-Calm, now-Calm, within-Calm) depth 10

  -- one more domain counts once at most
  counted :
      (path : String) (before n : ℕ) (there : Bool)
      → Total Told (check_domain t path before n there) (λ m. m ≤ n + 1)
  counted path before n false = Total-pure Told _ n (omega arith)
  counted path before n true =
      Total-catch (check_certificate_expiry-Calm path before) each
        (λ e. Total-pure Told _ n (omega arith))
    where
      each : (b : Bool) → Total Told (count_if t n b) (λ m. m ≤ n + 1)
      each true = Total-pure Told _ (n + 1) (omega arith)
      each false = Total-pure Told _ n (omega arith)

  check_from-Total :
      (path : String) (before n : ℕ) (domains : List String)
      → Total Told (check_from t path before n domains) (λ m. m ≤ n + length domains)
  unfolding check_from exists
  check_from-Total path before n [] = Total-pure Told _ n (omega arith)
  check_from-Total path before n (domain ∷ domains) =
      Total-bind {Q = λ _. Unit} (record { run = λ s h. (tt, h) })
        (λ there _. Total-bind (counted path before n there) (λ m le.
          Total-weaken Told (λ k le'. omega (arith, le, le'))
            (check_from-Total path before m domains)))

  -- Checking never fails, and counts at most the domains.
  check_and_renew-Total :
      (domains : List String) (storage_path : String) (before : ℕ)
      → Total Told
          (check_and_renew_certificates t domains storage_path before)
          (λ m. m ≤ length domains)
  unfolding check_and_renew_certificates
  check_and_renew-Total domains storage_path before =
      Total-weaken Told (λ m le. omega (arith, le))
        (check_from-Total (join_path storage_path "certificate.pem") before 0 domains)

  told :
      (o : Option String) (n : ℕ)
      → o ≡ email
      → suc n ≤ most
      → Total Told (tell t o (λ to. renewal to (suc n))) (λ _. Unit)
  told none n e le = Total-pure Told _ tt tt
  told (some to) n e le = record { run = λ s h. (tt, ((sym e, omega arith, le), h)) }

  renewed-Total : (n : ℕ) → n ≤ most → Total Told (renewed t email n) (λ _. Unit)
  renewed-Total zero le = Total-pure Told _ tt tt
  renewed-Total (suc n) le = told email n refl le

  check-Total :
      (domains : List String) (storage_path : String) (before : ℕ)
      → length domains ≤ most
      → Total Told (check t domains storage_path before email) (λ _. Unit)
  unfolding check
  check-Total domains storage_path before le =
      Total-uncaught _ (check_and_renew-Total domains storage_path before)
        (λ n le'. renewed-Total n (omega (arith, le, le')))

  serve-Total :
      (domains : List String) (storage_path : String) (before : ℕ) (wakes : List Wake)
      → length domains ≤ most
      → Total Told (serve t domains storage_path before email wakes) (λ state. state ≡ ended wakes)
  unfolding serve
  serve-Total domains storage_path before [] le = Total-pure Told _ running refl
  serve-Total domains storage_path before (sigterm ∷ _) le = Total-pure Told _ stopped refl
  serve-Total domains storage_path before (sigint ∷ _) le = Total-pure Told _ stopped refl
  serve-Total domains storage_path before (slept ∷ wakes) le =
      Total-bind (check-Total domains storage_path before le)
        (λ _ _. serve-Total domains storage_path before wakes le)

module _ {Key : Type 0} (t : Tools Key) where
  finished :
      (P : Machine → Type 0) (a : Loop) (r : Outcome Loop) (s : Machine)
      → Returns P (λ state. state ≡ a) r s
      → (r ≡ ok a) × P s
  finished P a (ok b) s h = (ap ok h.0, h.1)
  finished P a (err e) s h = elim h [ ]
  finished P a (panic m) s h = elim h [ ]

  heard-serve :
      (domains : List String) (storage_path : String) (before : ℕ) (email : Option String)
      (wakes : List Wake)
      → serve t domains storage_path before email wakes
        ≡ serve t domains storage_path before email (heard wakes)
  unfolding serve
  heard-serve domains storage_path before email [] = refl
  heard-serve domains storage_path before email (sigterm ∷ _) = refl
  heard-serve domains storage_path before email (sigint ∷ _) = refl
  heard-serve domains storage_path before email (slept ∷ wakes) =
      ap (λ rest. check t domains storage_path before email >> rest)
        (heard-serve domains storage_path before email wakes)

  -- The daemon's loop never fails, whatever its files, its clock and its wakes are: it has stopped
  -- exactly where a signal is among the wakes, is still running where none is, and does not look at a
  -- wake behind the first signal. Where it had told nothing, it has told of no failure, and each mail is
  -- of at least one renewal and at most one for each domain, to the address for notices.
  pub serve-Announced :
      (domains : List String) (storage_path : String) (before : ℕ) (email : Option String)
      (wakes : List Wake) (s : Machine)
      → s.notices ≡ []
      → ((serve t domains storage_path before email wakes s).0 ≡ ok (ended wakes))
        × (serve t domains storage_path before email wakes s
            ≡ serve t domains storage_path before email (heard wakes) s)
        × All
            (Announced email (length domains))
            (serve t domains storage_path before email wakes s).1.notices
  serve-Announced domains storage_path before email wakes s e =
      let (done_, told) =
        finished (λ m. All (Announced email (length domains)) m.notices) (ended wakes) _ _
          ((serve-Total t email (length domains) domains storage_path before wakes
              (omega arith)).run
            s (subst (All (Announced email (length domains))) (sym e) tt)) in
      (done_, ap (λ m. m s) (heard-serve domains storage_path before email wakes), told)

  abbrev is_counted : Outcome Bool → Bool
  is_counted (ok b) = b
  is_counted _ = false

  counted_case :
      (b near : Bool) (e : AcmeError) (s : Machine)
      → (if b then pure near else fail e) s ≡ (ok true, s)
      → (b ≡ true) × (near ≡ true)
  counted_case true near e s h = (refl, ap (λ out. is_counted out.0) h)
  counted_case false near e s h = let wrong : false ≡ true = ap (λ out. is_counted out.0) h in cc

  -- A certificate is counted exactly from the window's length before its end to its end: an expired
  -- one is not.
  pub within_iff :
      (not_after secs before : ℕ) (s : Machine)
      → (within t not_after secs before s ≡ (ok true, s))
        ↔ ((secs < not_after) × (not_after ≤ secs + before))
  unfolding within
  within_iff not_after secs before s = (
    λ e.
        let (early, near) =
          counted_case (ltb secs not_after) (leb (not_after - secs) before) _ s e in
        (ltb→lt secs not_after early, room (leb→le (not_after - secs) before near)),
    λ h. rw (early h.0, fits h.1) refl,
  )
    where
      room : not_after - secs ≤ before → not_after ≤ secs + before
      room h = omega (arith, h)

      early : secs < not_after → ltb secs not_after ≡ true
      early h = ground arith

      fits : not_after ≤ secs + before → leb (not_after - secs) before ≡ true
      fits h = ground arith
