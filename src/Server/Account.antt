-- ===== src/Server/Account.antt =====
-- src/server/account.rs, and the handler of src/server/webhook.rs.
use acmex.Base.{String, ◌<>◌, ◌==◌, Bool, Option, none, some, if◌then◌else◌}
use acmex.Error.{AcmeError}
use acmex.Act.{Outcome, ok, err, panic}
use acmex.Net.{Io, World}
use acmex.Net.Value.{Json, null, str, arr, obj, nil, cons, end, field}
use acmex.Platform.{Platform}
use acmex.Client.Config.{Client, register_account}
use acmex.Server.State.{AppState, ApiResponse}

pub record CreateAccountRequest : Type 0 where
  pub email : String
  pub tos_agreed : Bool

abbrev pub account_response : String → String → Json
account_response id contact = obj (
    field "id" (str id)
      (field "status" (str "valid") (field "contact" (arr (cons (str contact) nil)) end)))

-- The display of an error is in src/error.rs.
module _ {Key : Type 0} (p : Platform Key) (display : AcmeError → String) where
  -- the clone's account is dropped with it
  abbrev pub registered :
      String → Outcome String × World → Option String → Outcome ApiResponse × World
  registered email (ok id, w) account_id = (
    ok (record { status = 201; body = account_response id ("mailto:" <> email) }),
    record w { account_id = account_id },
  )
  registered email (err e, w) account_id = (
    ok (record { status = 500; body = str ("Failed to register account: " <> display e) }),
    record w { account_id = account_id },
  )
  registered email (panic m, w) account_id = (panic m, record w { account_id = account_id })

  unfoldable pub create_account : Option (Client Key) → CreateAccountRequest → Io ApiResponse
  create_account none payload w =
      (ok (record { status = 503; body = str "ACME client not configured on server" }), w)
  create_account (some client) payload w =
      registered payload.email (register_account p client w) w.account_id

unfoldable pub get_account : String → AppState → ApiResponse × AppState
get_account id s = (
  record {
    status = 200;
    body =
        account_response ("https://acme-v02.api.letsencrypt.org/acme/acct/" <> id)
          "mailto:admin@example.com";
  },
  s,
)

unfoldable pub update_account : String → CreateAccountRequest → AppState → ApiResponse × AppState
update_account id payload s = (
  record {
    status = 200;
    body =
        account_response ("https://acme-v02.api.letsencrypt.org/acme/acct/" <> id)
          ("mailto:" <> payload.email);
  },
  s,
)

unfoldable pub deactivate_account : String → AppState → ApiResponse × AppState
deactivate_account id s = (record { status = 204; body = null }, s)

unfoldable pub webhook_handler : String → ApiResponse
webhook_handler event =
    if event == "ping"
    then record { status = 200; body = obj (field "status" (str "pong") end) }
    else record { status = 400; body = obj (field "error" (str "Unknown event type") end) }
