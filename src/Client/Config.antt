-- ===== src/Client/Config.antt =====
-- The configuration of src/client.rs, and the account that it registers.
use acmex.Base.{String, Bool, false, Option, none, some, List, [], ◌∷◌, ◌++◌}
use acmex.Act.{ok, panic, pure, modify, ◌>>=◌, ◌>>◌}
use acmex.Net.{Io}
use acmex.Types.{Contact}
use acmex.Platform.{Platform}
use acmex.Protocol.Directory
use acmex.Protocol.Request.{Manager}
use acmex.Account.Manager.{register}

pub record AcmeConfig : Type 0 where
  pub directory_url : String
  pub contacts : List Contact
  pub terms_of_service_agreed : Bool

unfoldable pub new : String → AcmeConfig
new url = record { directory_url = url; contacts = []; terms_of_service_agreed = false }

unfoldable pub with_contact : AcmeConfig → Contact → AcmeConfig
with_contact c contact = record c { contacts = c.contacts ++ contact ∷ [] }

unfoldable pub with_tos_agreed : AcmeConfig → Bool → AcmeConfig
with_tos_agreed c agreed = record c { terms_of_service_agreed = agreed }

unfoldable pub lets_encrypt_staging : AcmeConfig
unfolding new
lets_encrypt_staging = new "https://acme-staging-v02.api.letsencrypt.org/directory"

unfoldable pub lets_encrypt : AcmeConfig
unfolding new
lets_encrypt = new "https://acme-v02.api.letsencrypt.org/directory"

-- The fields of `AcmeClient` that do not change; the registered account is in the world.
pub record Client (Key : Type 0) : Type 0 where
  pub config : AcmeConfig
  pub key_pair : Key

-- `DirectoryManager::new` and `NonceManager::new`, of which every client call makes its own
abbrev pub new_managers : Io (Unit {0})
new_managers = modify (λ w. record w { pool = []; directory = none })

-- `self.account_id = Some(..)`
abbrev pub set_account : String → Io (Unit {0})
set_account id = modify (λ w. record w { account_id = some id })

-- `self.account_id.as_ref().unwrap()`
abbrev pub unwrap_id : Option String → Io String
unwrap_id (some id) w = (ok id, w)
unwrap_id none w = (panic "called `Option::unwrap()` on a `None` value", w)

module _ {Key : Type 0} (p : Platform Key) (c : Client Key) where
  abbrev manager_at : String → Manager Key
  manager_at nonce_url = record {
    key = c.key_pair;
    nonce_url = nonce_url;
    directory_url = c.config.directory_url;
  }

  -- the managers of one call, the directory fetched for the nonce URL
  unfoldable pub managers : Io (Manager Key)
  managers = do
    new_managers
    directory ← Directory.get p (c.config.directory_url)
    pure (manager_at directory.new_nonce)

  unfoldable pub register_account : Io String
  register_account = do
    m ← managers
    account ← register p m (c.config.contacts) (c.config.terms_of_service_agreed)
    set_account account.id
    pure account.id

  unfoldable pub ensured : Option String → Io String
  ensured (some id) = pure id
  ensured none = register_account

  -- `if self.account_id.is_none() { self.register_account().await?; }`, then the id
  unfoldable pub ensure_account : Io String
  unfolding ensured
  ensure_account = do _ ← (λ w. ensured w.account_id w); λ w. unwrap_id w.account_id w
