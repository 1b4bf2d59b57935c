-- ===== src/Tests/Toy.antt =====
-- A platform whose operations can be evaluated, and a server's answers to the issue of a certificate.
use acmex.Base.{ℕ, String, ◌==◌, true, none, some, List, [], ◌∷◌, if◌then◌else◌}
use acmex.Error.{AcmeError}
use acmex.Act.{Answer, done, fault}
use acmex.Net.{Directory, World, Reply, response}
use acmex.Challenge.Solvers.{Registry, dns}
use acmex.Platform.{Platform}
use acmex.Account.Object.{Account}
use acmex.Order.Objects.{Challenge, Authorization, Order}
use acmex.Client.Config.{Client}

abbrev pub toy_directory : Directory
toy_directory = record {
  new_nonce = "/new-nonce";
  new_account = "/new-account";
  new_order = "/new-order";
  revoke_cert = "/revoke";
  key_change = "/key-change";
}

abbrev pub toy_account : Account
toy_account = record {
  id = "";
  status = "valid";
  contact = [];
  terms_of_service_agreed = true;
  created_at = none;
  initial_ip = none;
  orders = none;
  external_account_binding = none;
}

-- An order with the text as its status.
abbrev pub order_with : String → Order
order_with status = record {
  status = status;
  expires = "";
  identifiers = [];
  authorizations = "/authz/1" ∷ [];
  finalize = "/finalize/1";
  certificate = some "/cert/1";
  combined_authorizations = none;
}

abbrev pub dns_challenge : Challenge
dns_challenge = record {
  challenge_type = "dns-01";
  url = "/chall/1";
  status = "pending";
  token = "tok";
  key_authorization = none;
  validation = none;
  updated = none;
  error = none;
}

abbrev pub toy_authorization : Authorization
toy_authorization = record {
  identifier = record { id_type = "dns"; value = "a.org" };
  status = "pending";
  expires = "";
  challenges = record dns_challenge { challenge_type = "tls-alpn-01" } ∷ dns_challenge ∷ [];
  wildcard = none;
  combined_challenges = none;
}

-- A body that says `broken` does not decode; all others do.
abbrev decode {ℓ} : {A : Type ℓ} → A → String → Answer A
decode a body = if body == "broken" then fault "expected value" else done a

abbrev pub toy : Platform ℕ
toy = record {
  public_key = λ k. k ∷ [];
  sign_bytes = λ k bytes. done (k ∷ []);
  generate = done;
  csr = λ n domains. done (n ∷ [], "key");
  base64url = λ bytes. "b64";
  sha_256 = λ bytes. bytes;
  utf_8 = λ s. [];
  json_text = λ j. "{}";
  status_text = λ n. "status";
  provider_error = AcmeError.transport;
  show_number = λ n. "n";
  directory_of = decode toy_directory;
  account_of = decode toy_account;
  order_of = λ body. if body == "broken" then fault "expected value" else done (order_with body);
  authorization_of = decode toy_authorization;
  challenge_of = decode dns_challenge;
}

-- A response that brings a nonce and a location.
abbrev pub reply : ℕ → String → String → Reply
reply status nonce body = response (record {
  status = status;
  headers = ("replay-nonce", some nonce) ∷ ("location", some "/here") ∷ [];
  body = done body;
})

abbrev pub toy_registry : Registry
toy_registry = record {
  http_slot = none;
  dns_slot = some (dns (record { domain = "a.org"; record_id = none }));
  tls_slot = none;
}

abbrev pub world : List Reply → World
world replies = record {
  pool = [];
  directory = none;
  account_id = none;
  solvers = toy_registry;
  replies = replies;
  effects = done "rec-1" ∷ [];
  log = [];
  draws = 0;
}

-- registration, order, authorization, polls, finalization and download, without a failure
abbrev pub issuing : World
issuing = world (
    reply 200 "n0" ""
    ∷ reply 204 "n1" ""
    ∷ reply 201 "n2" ""
    ∷ reply 200 "n3" ""
    ∷ reply 204 "n4" ""
    ∷ reply 201 "n5" "pending"
    ∷ reply 200 "n6" ""
    ∷ reply 200 "n7" ""
    ∷ reply 200 "n8" "pending"
    ∷ reply 200 "n9" "ready"
    ∷ reply 200 "n10" "processing"
    ∷ reply 200 "n11" "valid"
    ∷ reply 200 "n12" "CERT"
    ∷ [])

abbrev pub toy_client : Client ℕ
toy_client = record {
  config = record { directory_url = "/dir"; contacts = []; terms_of_service_agreed = true };
  key_pair = 7;
}
