-- ===== src/Cli/Daemon.antt =====
-- src/cli/commands/daemon.rs: the loop that looks at the certificate.
use acmex.Base.{
  ℕ, zero, suc, ◌+◌, ◌-◌, ◌*◌, ◌%◌, ◌^◌, String, Bool, true, false, Option, none, some, List, [],
  ◌∷◌, leb, ltb, if◌then◌else◌, is_empty,
}
use acmex.Error.{AcmeError}
use acmex.Act.{Act, pure, fail, refuse_if, catch, ◌>>=◌, ◌>>◌}
use acmex.Cli.Machine.{
  Machine, Notice, renewal, failure, exists, read, fs_call, now, notify, join_path,
}
use acmex.Cli.Pem.{Tools, parse_not_after, as_u64}

-- Each branch of a `tokio::select!`; the sleep is of the check's interval.
pub data Wake : Type 0 where
  sigterm sigint slept : Wake

-- Whether the loop was left by a `break`, so that the command returns.
pub data Loop : Type 0 where
  running stopped : Loop

module _ {Key : Type 0} (t : Tools Key) where
  -- `seconds_until_expiry <= renew_before_secs`, where the certificate has not expired
  unfoldable pub within : ℕ → ℕ → ℕ → Act Machine Bool
  within not_after_secs now_secs before =
      if ltb now_secs not_after_secs
      then pure (leb (not_after_secs - now_secs) before)
      else fail (AcmeError.certificate "Certificate has already expired")

  unfoldable pub check_certificate_expiry : String → ℕ → Act Machine Bool
  unfolding within
  check_certificate_expiry cert_path renew_before_secs = do
    cert_content ← read cert_path
    not_after ← parse_not_after t cert_content
    now_secs ← now
    within (as_u64 not_after) now_secs renew_before_secs

  abbrev pub count_if : ℕ → Bool → Act Machine ℕ
  count_if n true = pure (n + 1)
  count_if n false = pure n

  -- one domain: an absent certificate and an error are only warned of
  abbrev pub check_domain : String → ℕ → ℕ → Bool → Act Machine ℕ
  check_domain path before n false = pure n
  check_domain path before n true =
      catch (check_certificate_expiry path before) (count_if n) (λ _. pure n)

  -- the loop over the domains, with the count so far
  unfoldable pub check_from : String → ℕ → ℕ → List String → Act Machine ℕ
  unfolding check_certificate_expiry
  check_from path before n [] = pure n
  check_from path before n (domain ∷ domains) = do
    there ← exists path
    n' ← check_domain path before n there
    check_from path before n' domains

  unfoldable pub check_and_renew_certificates : List String → String → ℕ → Act Machine ℕ
  unfolding check_from
  check_and_renew_certificates domains storage_path before =
      check_from (join_path storage_path "certificate.pem") before 0 domains

  abbrev pub tell : Option String → (String → Notice) → Act Machine (Unit {0})
  tell none n = pure tt
  tell (some email) n = notify (n email)

  abbrev pub renewed : Option String → ℕ → Act Machine (Unit {0})
  renewed email zero = pure tt
  renewed email (suc n) = tell email (λ to. renewal to (suc n))

  -- a round of the loop
  unfoldable pub check : List String → String → ℕ → Option String → Act Machine (Unit {0})
  unfolding check_and_renew_certificates
  check domains storage_path before email =
      catch (check_and_renew_certificates domains storage_path before) (renewed email)
        (λ e. tell email (λ to. failure to e))

  -- The loop, up to the first signal; behind the last wake that is looked at it still runs.
  unfoldable pub serve : List String → String → ℕ → Option String → List Wake → Act Machine Loop
  unfolding check
  serve domains storage_path before email [] = pure running
  serve domains storage_path before email (sigterm ∷ _) = pure stopped
  serve domains storage_path before email (sigint ∷ _) = pure stopped
  serve domains storage_path before email (slept ∷ wakes) =
      check domains storage_path before email >> serve domains storage_path before email wakes

  unfoldable pub handle_daemon :
      List String → String → ℕ → Option String → List Wake → Act Machine Loop
  unfolding serve fs_call
  handle_daemon domains storage_path renew_before_days email wakes = do
    refuse_if (is_empty domains) (AcmeError.invalid_input "No domains specified")
    -- the handlers of the two signals
    fs_call
    fs_call
    serve domains storage_path (renew_before_days * 24 * 3600 % 2 ^ 64) email wakes
