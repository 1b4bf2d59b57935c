-- ===== src/Cli/Account.antt =====
-- src/cli/commands/account.rs, and the revocation of src/cli/commands/cert.rs.
use acmex.Base.{String, ◌==◌, Bool, true, false, Option, none, some, [], ◌∷◌, if◌then◌else◌}
use acmex.Error.{AcmeError}
use acmex.Act.{Act, or_raise, pure, lift, ◌>>=◌}
use acmex.Account.KeyRollover.{execute}
use acmex.Account.Manager
use acmex.Client.Config.{new, managers}
use acmex.Net.{Io}
use acmex.Order.Revocation.{CertificateRevocation, with_reason, revoke}
use acmex.Platform.{Platform}
use acmex.Protocol.Request.{Manager}
use acmex.Types.{RevocationReason, contact_email}
use acmex.Cli.Credentials.{generate, from_pem, read_to_string, save_to_file, load_from_file}
use acmex.Cli.Machine.{Machine, online, read}
use acmex.Cli.Pem.{Tools}

unfoldable pub acme_url : Bool → String
acme_url true = "https://acme-v02.api.letsencrypt.org/directory"
acme_url false = "https://acme-staging-v02.api.letsencrypt.org/directory"

module _ {Key : Type 0} (p : Platform Key) (t : Tools Key) where
  -- the managers of one command
  unfoldable pub manager_for : Key → String → Io (Manager Key)
  manager_for key url = managers p (record { config = new url; key_pair = key })

  unfoldable pub handle_register : String → Bool → String → Act Machine (Unit {0})
  unfolding generate acme_url manager_for save_to_file
  handle_register email prod key_path = do
    key ← online (generate p t)
    m ← online (manager_for key (acme_url prod))
    _ ← online (Manager.register p m (contact_email email ∷ []) true)
    save_to_file p t key key_path

  unfoldable pub handle_update : String → String → Bool → Act Machine (Unit {0})
  unfolding acme_url manager_for load_from_file
  handle_update key_path email prod = do
    key ← load_from_file p t key_path
    m ← online (manager_for key (acme_url prod))
    let contact = contact_email email
    account ← online (Manager.register p m (contact ∷ []) true)
    _ ← online (Manager.update_contacts p m account.id (contact ∷ []))
    pure tt

  unfoldable pub handle_deactivate : String → Bool → Act Machine (Unit {0})
  unfolding acme_url manager_for load_from_file
  handle_deactivate key_path prod = do
    key ← load_from_file p t key_path
    m ← online (manager_for key (acme_url prod))
    account ← online (Manager.register p m [] true)
    online (Manager.deactivate p m account.id)

  unfoldable pub handle_rotate_key : String → String → Bool → Act Machine (Unit {0})
  unfolding generate acme_url manager_for load_from_file save_to_file
  handle_rotate_key key_path new_key_path prod = do
    key ← load_from_file p t key_path
    m ← online (manager_for key (acme_url prod))
    account ← online (Manager.register p m [] true)
    new_key ← online (generate p t)
    _ ← online (execute p m new_key account.id)
    save_to_file p t new_key new_key_path

  unfoldable pub reason_of : String → RevocationReason
  reason_of r =
      if r == "key-compromise"
      then RevocationReason.key_compromise
      else if r == "ca-compromise"
      then RevocationReason.ca_compromise
      else if r == "affiliation-changed"
      then RevocationReason.affiliation_changed
      else if r == "superseded"
      then RevocationReason.superseded
      else if r == "cessation-of-operation"
      then RevocationReason.cessation_of_operation
      else RevocationReason.unspecified

  abbrev pub reasoned : Option String → CertificateRevocation → CertificateRevocation
  reasoned none r = r
  reasoned (some reason) r = with_reason r (reason_of (t.to_lowercase reason))

  unfoldable pub handle_cert_revoke : String → Option String → String → Act Machine (Unit {0})
  unfolding manager_for read_to_string from_pem reason_of
  handle_cert_revoke cert_path reason_str key_path = do
    content ← read cert_path
    cert_der ← or_raise (t.pem_contents content) AcmeError.certificate
    key_pem ← read_to_string p t key_path
    key ← lift (from_pem p t key_pem)
    m ← online (manager_for key (acme_url true))
    online (
        revoke p m (
          reasoned reason_str
            (record { account_id = "dummy_id"; certificate_der = cert_der; reason = none })))
