-- ===== src/Account/Manager.antt =====
-- src/account/manager.rs: registration, update, lookup and deactivation of the account.
use acmex.Base.{String, ◌<>◌, not, Bool, List, map}
use acmex.Error.{AcmeError}
use acmex.Act.{Outcome, ok, err, panic, pure, ok_or, or_raise, refuse_if, ◌>>=◌, ◌>>◌}
use acmex.Net.{Io, Response, header, is_success, text_or_unknown, json_body}
use acmex.Net.Value.{Json, bool, str, arr, obj, end, field, strs}
use acmex.Types.{Contact, to_uri}
use acmex.Platform.{Platform}
use acmex.Protocol.Jwk.{Jwk, new_ed_25519, to_value, thumbprint_sha_256}
use acmex.Protocol.Directory
use acmex.Protocol.Request.{Manager, by_jwk, by_kid, signed_post}
use acmex.Account.Object.{Account}

abbrev thumbed : String → Outcome String → Outcome String
thumbed token (ok t) = ok (token <> "." <> t)
thumbed token (err e) = err e
thumbed token (panic m) = panic m

module _ {Key : Type 0} (p : Platform Key) (m : Manager Key) where
  open m use {key, directory_url}

  -- `AccountManager::new` derives the public key's JWK.
  unfoldable pub jwk : Jwk
  jwk = new_ed_25519 (p.base64url (p.public_key key))

  -- the check of the status, with and without the server's text
  abbrev refuse_status : Response → String → Io (Unit {0})
  refuse_status response what =
      refuse_if (not (is_success response.status))
        (AcmeError.account (what <> ": HTTP " <> p.status_text response.status))

  abbrev refuse_status_text : Response → String → Io (Unit {0})
  refuse_status_text response what = refuse_if (not (is_success response.status)) (
      AcmeError.account (
        what
        <> ": HTTP "
        <> p.status_text response.status
        <> ": "
        <> text_or_unknown response.body))

  abbrev parse_account : Response → Io Account
  parse_account response =
      or_raise (json_body p.account_of response.body)
        (λ e. AcmeError.account ("Failed to parse account response: " <> e))

  abbrev pub contact_json : List Contact → Json
  contact_json contacts = arr (strs (map to_uri contacts))

  unfoldable pub register : List Contact → Bool → Io Account
  register contacts agreed = do
    directory ← Directory.get p directory_url
    let payload =
        obj
          (field "termsOfServiceAgreed" (bool agreed) (field "contact" (contact_json contacts) end))
    response ←
        signed_post p m (by_jwk (to_value jwk)) directory.new_account payload
          "Failed to register account"
    account_url ←
        ok_or (header response "location")
          (AcmeError.account "Missing location header in account response")
    refuse_status_text response "Failed to register account"
    account ← parse_account response
    pure (record account { id = account_url })

  unfoldable pub update_contacts : String → List Contact → Io Account
  update_contacts account_id contacts = do
    let payload = obj (field "contact" (contact_json contacts) end)
    response ← signed_post p m (by_kid account_id) account_id payload "Failed to update account"
    refuse_status_text response "Failed to update account"
    parse_account response

  unfoldable pub get_account : String → Io Account
  get_account account_id = do
    response ← signed_post p m (by_kid account_id) account_id (obj end) "Failed to get account"
    refuse_status response "Failed to get account"
    account ← parse_account response
    pure (record account { id = account_id })

  unfoldable pub deactivate : String → Io (Unit {0})
  deactivate account_id = do
    let payload = obj (field "status" (str "deactivated") end)
    response ← signed_post p m (by_kid account_id) account_id payload "Failed to deactivate account"
    refuse_status response "Failed to deactivate account"
    pure tt

  unfoldable pub compute_key_authorization : String → Outcome String
  compute_key_authorization token = thumbed token (thumbprint_sha_256 p jwk)
