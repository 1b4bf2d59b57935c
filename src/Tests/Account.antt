-- ===== src/Tests/Account.antt =====
-- A change of the account's key, evaluated.
use acmex.Base.{ℕ, ◌≡◌, refl, false, true, List, [], ◌∷◌}
use acmex.Base.Dict
use acmex.Base.Split.{has_dot, split_dot}
use acmex.Act.{ok, ◌>>=◌}
use acmex.Net
use acmex.Net.{World}
use acmex.Platform.{Platform}
use acmex.Protocol.Jwk
use acmex.Protocol.Jws
use acmex.Protocol.Jws.{sign, header_part, payload_part}
use acmex.Protocol.Nonce
use acmex.Protocol.Directory
use acmex.Protocol.Request
use acmex.Protocol.Request.{Manager}
use acmex.Account.Manager as AccountManager
use acmex.Account.Manager.{register}
use acmex.Account.Results.{Registered, register-Registered}
use acmex.Account.Object.{Account}
use acmex.Account.KeyRollover
use acmex.Account.KeyRollover.{
  execute, Changed, execute-Changed, inner_header, inner_payload, inner_object, signed_parts,
}
use acmex.Tests.Toy.{toy, toy_account, world, reply}

abbrev manager : Manager ℕ
manager = record { key = 7; nonce_url = "/nonce"; directory_url = "/dir" }

pub no_dot : (bytes : List ℕ) → has_dot (Platform.base64url toy bytes) ≡ false
unfolding has_dot
no_dot bytes = refl

abbrev rolling : World
rolling = world (reply 200 "n0" "" ∷ reply 204 "n1" "" ∷ reply 200 "n2" "" ∷ [])

abbrev rolled_account : Account
rolled_account = record toy_account { id = "/acct" }

rolled :
    execute toy manager 8 "/acct" rolling
    ≡ (ok rolled_account, (execute toy manager 8 "/acct" rolling).1)
unfolding execute KeyRollover.inner_object KeyRollover.new_jwk split_dot AccountManager.jwk
    Directory.get Directory.cached_or_fetch Directory.fetch Net.send Net.exchange Net.header
    Request.signed_post Request.post_with Nonce.get_nonce Nonce.pop_or_fetch Nonce.fetch_nonce
    Nonce.cache_from Nonce.cache_if_some Nonce.cache_nonce Jws.sign Jws.header_json Jwk.new_ed_25519
    Jwk.to_value Dict.get Dict.insert Dict.remove ◌>>=◌
rolled = refl

execute-Changed_example :
    Changed toy manager 8 no_dot "/acct" rolled_account
      (execute toy manager 8 "/acct" rolling).1.log
execute-Changed_example =
    execute-Changed toy manager 8 no_dot "/acct" rolling (execute toy manager 8 "/acct" rolling).1
      rolled_account rolled

signed :
    sign toy 8 (inner_header toy manager 8 "/key-change") (inner_payload toy manager 8 "/acct")
    ≡ ok "b64.b64.b64"
unfolding sign
signed = refl

abbrev registering : World
registering = world (reply 200 "n0" "" ∷ reply 204 "n1" "" ∷ reply 201 "n2" "" ∷ [])

abbrev registered_account : Account
registered_account = record toy_account { id = "/here" }

registered :
    register toy manager [] true registering
    ≡ (ok registered_account, (register toy manager [] true registering).1)
unfolding register AccountManager.jwk Directory.get Directory.cached_or_fetch Directory.fetch
    Net.send Net.exchange Net.header Request.signed_post Request.post_with Nonce.get_nonce
    Nonce.pop_or_fetch Nonce.fetch_nonce Nonce.cache_from Nonce.cache_if_some Nonce.cache_nonce
    Jws.sign Jws.header_json Jwk.new_ed_25519 Jwk.to_value Dict.get Dict.insert Dict.remove ◌>>=◌
registered = refl

register-Registered_example :
    Registered toy manager [] true registered_account
      (register toy manager [] true registering).1.log
register-Registered_example =
    register-Registered toy manager [] true registering (register toy manager [] true registering).1
      registered_account registered
