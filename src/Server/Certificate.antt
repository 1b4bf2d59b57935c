-- ===== src/Server/Certificate.antt =====
-- src/server/certificate.rs.
use acmex.Base.{ℕ, String, ◌<>◌, not, ◌||◌, Option, none, some, List, [], ◌∷◌, if◌then◌else◌}
use acmex.Act.{Answer, Outcome, ok}
use acmex.Net.Value.{Json, null, str, arr, obj, nil, cons, end, field, optional}
use acmex.Certificate.X509.{Parsers}
use acmex.Certificate.Ocsp.{OcspStatus, verify_status}
use acmex.Storage.Backend.{Backend}
use acmex.Server.State.{AppState, ApiResponse, TaskInfo, in_progress, renews}
use acmex.Server.Order.{problem_json}

abbrev pub certificate_response : String → String → String → Option String → Json
certificate_response id serial expiry ocsp_status = obj (
    field "id" (str id) (
      field "serial" (str serial)
        (field "expiry" (str expiry) (optional "ocsp_status" ocsp_status end))))

unfoldable pub list_certificates : AppState → ApiResponse × AppState
list_certificates s = (
  record {
    status = 200;
    body =
        arr (
          cons (certificate_response "cert_123" "0123456789abcdef" "2026-05-08T00:00:00Z" none)
            nil);
  },
  s,
)

-- The backend, where there is one, in its own state; the derived `Debug` is the compiler's.
module _ (parsers : Parsers) (client : Answer (Unit {0})) (debug : OcspStatus → String) where
  abbrev pub status_text : Outcome OcspStatus → Option String
  status_text (ok status) = some (debug status)
  status_text _ = none

  abbrev pub status_of : Outcome (Option (List ℕ)) → Option String
  status_of (ok (some cert_data)) = status_text (verify_status parsers client cert_data)
  status_of _ = none

  abbrev pub loaded_status : {S : Type 0} → Option (Backend S) → String → S → Option String × S
  loaded_status none id s = (none, s)
  loaded_status (some storage) id s =
      let (r, t) = Backend.load storage ("cert:" <> id) s in (status_of r, t)

  unfoldable pub get_certificate : {S : Type 0} → Option (Backend S) → String → S → ApiResponse × S
  unfolding verify_status
  get_certificate storage id s =
      let (ocsp_status, t) = loaded_status storage id s in
      (
        record {
          status = 200;
          body = certificate_response id "0123456789abcdef" "2026-05-08T00:00:00Z" ocsp_status;
        },
        t,
      )

-- The id is drawn by `rand`.
unfoldable pub renew_certificate : String → String → AppState → ApiResponse × AppState
renew_certificate task_id id s =
    if not s.has_client || not s.has_storage
    then (
      record {
        status = 503;
        body = problem_json (record {
          problem_type = "https://acmex.sh/errors/config";
          title = "Server poorly configured";
          status = 503;
          detail = "ACME client or Storage backend missing";
          instance_ref = none;
        });
      },
      s,
    )
    else (
      record {
        status = 202;
        body = certificate_response task_id "renewal_in_progress" "pending" none;
      },
      record s { background = renews task_id id ∷ s.background },
    )

-- what the background task of a renewal writes before its sleep
abbrev pub renewal_started : String → TaskInfo
renewal_started cert_id = record {
  status = in_progress 1 ("Renewal started for cert " <> cert_id);
  domains = [];
}

unfoldable pub revoke_certificate : String → AppState → ApiResponse × AppState
revoke_certificate id s = (record { status = 204; body = null }, s)
