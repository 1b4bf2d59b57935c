-- ===== src/Cli/Renew.antt =====
-- src/cli/commands/renew.rs: `acmex renew`.
use acmex.Base.{
  ℕ, zero, suc, ◌+◌, ◌-◌, ◌*◌, ◌/◌, String, ◌<>◌, Bool, true, false, not, ◌&&◌, List, leb, ltb,
  if◌then◌else◌, is_empty,
}
use acmex.Error.{AcmeError}
use acmex.Act.{Act, done, pure, refuse_if, or_raise, ◌>>=◌, ◌>>◌}
use acmex.Client.Config.{new}
use acmex.Client.Issue.{generate}
use acmex.Orchestrator.Provisioner.{new_client}
use acmex.Platform.{Platform}
use acmex.Cli.Machine.{Machine, online, exists, read, fs_call, copy_file, now, join_path}
use acmex.Cli.Pem.{ℤ, pos, negsuc, Tools, parse_not_after}

abbrev millis_per_day : ℕ
millis_per_day = 86400000

abbrev negated : ℕ → ℤ
negated zero = pos 0
negated (suc n) = negsuc n

-- the difference in whole days, rounded towards zero
unfoldable pub days_until : ℤ → ℕ → ℤ
days_until (pos e) at =
    if leb at e then pos ((e - at) / millis_per_day) else negated ((at - e) / millis_per_day)
days_until (negsuc n) at = negated ((at + suc n) / millis_per_day)

abbrev pub thousandfold : ℤ → ℤ
thousandfold (pos n) = pos (n * 1000)
thousandfold (negsuc n) = negsuc (suc n * 1000 - 1)

abbrev pub is_negative : ℤ → Bool
is_negative (pos n) = false
is_negative (negsuc n) = true

abbrev pub elapsed : ℤ → ℕ
elapsed (pos n) = 0
elapsed (negsuc n) = suc n

-- past the default window of thirty days
abbrev pub not_due : ℤ → Bool
not_due (pos n) = ltb 30 n
not_due (negsuc n) = false

module _ {Key : Type 0} (p : Platform Key) (t : Tools Key) where
  abbrev pub backup_path : String → String → ℕ → String
  backup_path dir name time =
      join_path (join_path dir "backup") (name <> "_" <> t.date time <> ".pem")

  abbrev pub back_up_key : Bool → String → String → Act Machine (Unit {0})
  back_up_key false from to = pure tt
  back_up_key true from to = copy_file from to

  -- from the backup of the old certificate on: what is not written out here is only printed
  unfoldable pub replace_certificate : List String → String → Act Machine (Unit {0})
  unfolding fs_call copy_file exists now join_path
  replace_certificate domains dir = do
    fs_call
    time ← now
    copy_file (join_path dir "certificate.pem") (backup_path dir "certificate" time)
    key_there ← exists (join_path dir "private_key.pem")
    back_up_key key_there (join_path dir "private_key.pem") (backup_path dir "private_key" time)
    _ ← online (generate p domains)
    _ ← online (new_client p done (new "https://acme-v02.api.letsencrypt.org/directory"))
    pure tt

  abbrev pub replace_if_due : Bool → List String → String → Act Machine (Unit {0})
  replace_if_due true domains dir = pure tt
  replace_if_due false domains dir = replace_certificate domains dir

  unfoldable pub handle_renew : List String → Bool → String → Act Machine (Unit {0})
  unfolding exists read now join_path days_until replace_certificate
  handle_renew domains force storage_path = do
    refuse_if (is_empty domains) (AcmeError.invalid_input "No domains specified")
    let cert_path = join_path storage_path "certificate.pem"
    there ← exists cert_path
    refuse_if (not there) (AcmeError.certificate ("Certificate not found at: " <> cert_path))
    cert_content ← read cert_path
    not_after ← parse_not_after t cert_content
    _ ← now
    expiry ←
        or_raise (t.from_millisecond (thousandfold not_after))
          (λ _. AcmeError.certificate "Failed to parse expiration timestamp")
    at ← now
    let days = days_until expiry at
    refuse_if (is_negative days) (
        AcmeError.certificate
          ("Certificate has already expired " <> p.show_number (elapsed days) <> " days ago"))
    replace_if_due (not_due days && not force) domains storage_path
