-- ===== src/Transport/HttpClient.antt =====
-- src/transport/http_client.rs, over a network whose replies are a list.
use acmex.Base.{ℕ, String, ◌<>◌, Bool, true, ◌&&◌, leb, ltb, Option, none, some, List, [], ◌∷◌}
use acmex.Base.Dict.{Dict, insert}
use acmex.Error.{AcmeError}
use acmex.Act.{Act, Answer, fault, Outcome, outcome_of, pure, or_raise, ◌>>=◌}
use acmex.Net.{no_reply}

pub record HttpResponse : Type 0 where
  pub status : ℕ
  pub headers : Dict String
  pub body : List ℕ

unfoldable pub is_success : HttpResponse → Bool
is_success r = leb 200 r.status && ltb r.status 300

unfoldable pub is_client_error : HttpResponse → Bool
is_client_error r = leb 400 r.status && ltb r.status 500

unfoldable pub is_server_error : HttpResponse → Bool
is_server_error r = leb 500 r.status && ltb r.status 600

-- `String::from_utf8` and `serde_json::from_slice` are third-party code.
unfoldable pub text : (List ℕ → Answer String) → HttpResponse → Outcome String
text from_utf8 r = outcome_of (from_utf8 r.body) (λ e. AcmeError.transport ("Invalid UTF-8: " <> e))

unfoldable pub json {ℓ} : {A : Type ℓ} → (List ℕ → Answer A) → HttpResponse → Outcome A
json from_slice r =
    outcome_of (from_slice r.body) (λ e. AcmeError.transport ("JSON parse error: " <> e))

-- the timeout in seconds
pub record HttpClientConfig : Type 0 where
  pub timeout : ℕ
  pub pool_size : ℕ
  pub user_agent : String
  pub follow_redirects : Bool

unfoldable pub default_config : HttpClientConfig
default_config = record {
  timeout = 30;
  pool_size = 10;
  user_agent = "AcmeX/0.7.0";
  follow_redirects = true;
}

-- What `reqwest` is asked to send: the method, the URL and the bytes of the body.
pub record Request : Type 0 where
  pub method : String
  pub url : String
  pub body : List ℕ

-- What it answers: a header's value is `none` where `to_str` fails, and a body may fail to be read.
pub record Raw : Type 0 where
  pub status : ℕ
  pub headers : List (String × Option String)
  pub bytes : Answer (List ℕ)

pub record Wire : Type 0 where
  pub replies : List (Answer Raw)
  pub sent : List Request

abbrev pub answered : List (Answer Raw) → Request → Wire → Answer Raw × Wire
answered [] q w = (fault no_reply, record w { sent = q ∷ w.sent })
answered (a ∷ rest) q w = (a, record w { replies = rest; sent = q ∷ w.sent })

abbrev pub header_text : Option String → String
header_text none = ""
header_text (some v) = v

-- collected into a map: a name's last value stays
abbrev pub collected : List (String × Option String) → Dict String → Dict String
collected [] d = d
collected ((k, v) ∷ rest) d = collected rest (insert d k (header_text v))

unfoldable pub execute_request : Request → Act Wire HttpResponse
execute_request q w =
    let (a, w') = answered w.replies q w in
    ((or_raise a (λ e. AcmeError.transport ("Request failed: " <> e))) >>= λ raw.
    or_raise raw.bytes (λ e. AcmeError.transport ("Failed to read body: " <> e)) >>= λ body.
    pure (record { status = raw.status; headers = collected raw.headers []; body = body }))
      w'

unfoldable pub get : String → Act Wire HttpResponse
unfolding execute_request
get url = execute_request (record { method = "GET"; url = url; body = [] })

unfoldable pub post : String → List ℕ → Act Wire HttpResponse
unfolding execute_request
post url body = execute_request (record { method = "POST"; url = url; body = body })

-- `json(body)` of `reqwest` serializes the body; where that fails, so does the sending.
unfoldable pub post_json : {A : Type 0} → (A → Answer (List ℕ)) → String → A → Act Wire HttpResponse
unfolding execute_request
post_json to_vec url value = do
  body ← or_raise (to_vec value) (λ e. AcmeError.transport ("Request failed: " <> e))
  execute_request (record { method = "POST"; url = url; body = body })

unfoldable pub head : String → Act Wire HttpResponse
unfolding execute_request
head url = execute_request (record { method = "HEAD"; url = url; body = [] })
