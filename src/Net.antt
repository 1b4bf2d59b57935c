-- ===== src/Net.antt =====
-- The network as the program's `reqwest` calls meet it. A request is answered by the next reply of
-- the world, whatever the server or the network chose it to be, and both are logged.
pub mod Value
pub mod Cases
use acmex.Base.{
  ℕ, String, ◌<>◌, ◌==◌, Bool, ◌&&◌, Option, none, some, List, [], ◌∷◌, ltb, leb, if◌then◌else◌,
}
use acmex.Error.{AcmeError}
use acmex.Act.{Act, Answer, done, fault, or_raise, modify}
use acmex.Challenge.Solvers.{Registry}
use Value.{Json}

-- A header's value is `none` where `to_str` fails; a body that cannot be read is a fault.
pub record Response : Type 0 where
  pub status : ℕ
  pub headers : List (String × Option String)
  pub body : Answer String

-- `headers().get(name).and_then(|h| h.to_str().ok())`: the first value under the name
header_in : List (String × Option String) → String → Option String
header_in [] name = none
header_in ((k, v) ∷ hs) name = if k == name then v else header_in hs name

unfoldable pub header : Response → String → Option String
unfolding header_in
header r name = header_in r.headers name

-- `StatusCode::is_success`
abbrev pub is_success : ℕ → Bool
is_success status = leb 200 status && ltb status 300

-- `send().await`: a response, or the text of a network error
pub data Reply : Type 0 where
  response : Response → Reply
  failure : String → Reply

-- The protected header of a signed request. One of `jwk` and `kid` is there.
pub record JwsHeader : Type 0 where
  pub alg : String
  pub jwk : Option Json
  pub kid : Option String
  pub nonce : String
  pub url : String

pub data Event : Type 0 where
  got headed : String → Event
  -- the URL, what was signed, and the body that was sent
  posted : String → JwsHeader → Json → String → Event
  received : Response → Event
  -- a sleep of so many seconds
  slept : ℕ → Event
  -- what a challenge solver does outside the ACME server: listen, make a certificate, write to DNS
  bound : String → Event
  certified : String → List ℕ → Event
  txt_created txt_deleted : String → String → Event
  serving aborted : String → Event

-- What the ACME server publishes at its directory URL.
pub record Directory : Type 0 where
  pub new_nonce : String
  pub new_account : String
  pub new_order : String
  pub revoke_cert : String
  pub key_change : String

-- The state that the managers of one client call share: the nonce vector (last pushed first), the
-- cached directory, the account that the client registered, the solvers, the network and what else
-- answers a solver, the log (newest first), and how many keys were generated.
pub record World : Type 0 where
  pub pool : List String
  pub directory : Option Directory
  pub account_id : Option String
  pub solvers : Registry
  pub replies : List Reply
  pub effects : List (Answer String)
  pub log : List Event
  pub draws : ℕ

abbrev pub Io {ℓ} : Type ℓ → Type ℓ
Io A = Act World A

-- What an exhausted network answers.
abbrev pub no_reply : String
no_reply = "connection closed"

answer : List Reply → Event → World → Answer Response × World
answer [] e w = (fault no_reply, record w { log = e ∷ w.log })
answer (failure m ∷ rest) e w = (fault m, record w { replies = rest; log = e ∷ w.log })
answer (response r ∷ rest) e w = (done r, record w { replies = rest; log = received r ∷ e ∷ w.log })

unfoldable pub exchange : Event → World → Answer Response × World
unfolding answer
exchange e w = answer w.replies e w

-- `.send().await.map_err(|e| AcmeError::transport(format!("<what>: {}", e)))?`
unfoldable pub send : Event → String → Io Response
unfolding exchange
send e what w =
    let (a, w') = exchange e w in or_raise a (λ m. AcmeError.transport (what <> ": " <> m)) w'

abbrev pub sleep : ℕ → Io (Unit {0})
sleep secs = modify (λ w. record w { log = slept secs ∷ w.log })

-- `response.text().await.unwrap_or_else(|_| "Unknown error")`
abbrev pub text_or_unknown : Answer String → String
text_or_unknown (done t) = t
text_or_unknown (fault _) = "Unknown error"

-- `response.json().await`: reading the body may fail, and so may decoding it.
abbrev pub json_body {ℓ} : {A : Type ℓ} → (String → Answer A) → Answer String → Answer A
json_body decode (done t) = decode t
json_body decode (fault m) = fault m

-- An effect of a solver outside the program, with its next answer.
effect_answer : List (Answer String) → Event → World → Answer String × World
effect_answer [] e w = (fault no_reply, record w { log = e ∷ w.log })
effect_answer (a ∷ rest) e w = (a, record w { effects = rest; log = e ∷ w.log })

unfoldable pub effect : Event → (String → AcmeError) → Io String
unfolding effect_answer
effect e raised w = let (a, w') = effect_answer w.effects e w in or_raise a raised w'

abbrev pub note : Event → Io (Unit {0})
note e = modify (λ w. record w { log = e ∷ w.log })
