-- ===== src/Error.antt =====
-- src/error.rs: the error values, their display, and the problem document made of them.
use acmex.Base.{ℕ, String, ◌<>◌, Option, none}

pub data AcmeError : Type 0 where
  protocol account certificate crypto storage transport io json : String → AcmeError
  order challenge : String → String → AcmeError
  invalid_input timeout not_found configuration pem : String → AcmeError
  rate_limited : Option ℕ → AcmeError

pub record ProblemDetails : Type 0 where
  pub problem_type : String
  pub title : String
  pub status : ℕ
  pub detail : String
  pub instance_ref : Option String

-- The display of an optional duration (`{:?}`) is the standard library's.
module _ (show_duration : Option ℕ → String) where
  -- the `#[error(...)]` texts
  unfoldable pub display : AcmeError → String
  display (protocol m) = "Protocol error: " <> m
  display (account m) = "Account error: " <> m
  display (order s d) = "Order error: " <> s <> ", detail: " <> d
  display (challenge c e) = "Challenge failed: " <> c <> ", error: " <> e
  display (certificate m) = "Certificate error: " <> m
  display (crypto m) = "Crypto error: " <> m
  display (storage m) = "Storage error: " <> m
  display (transport m) = "Transport error: " <> m
  display (io m) = "IO error: " <> m
  display (json m) = "JSON error: " <> m
  display (invalid_input m) = "Invalid input: " <> m
  display (timeout m) = "Timeout: " <> m
  display (not_found m) = "Not found: " <> m
  display (configuration m) = "Configuration error: " <> m
  display (pem m) = "PEM error: " <> m
  display (rate_limited d) = "Rate limited, retry after: " <> show_duration d

  problem : String → String → ℕ → String → ProblemDetails
  problem kind title status detail = record {
    problem_type = kind;
    title = title;
    status = status;
    detail = detail;
    instance_ref = none;
  }

  unfoldable pub to_problem_details : AcmeError → ProblemDetails
  unfolding problem
  to_problem_details (protocol d) =
      problem "https://acmex.sh/errors/protocol" "ACME Protocol Error" 400 d
  to_problem_details (account d) =
      problem "https://acmex.sh/errors/account" "Account Operation Failed" 403 d
  to_problem_details (order s d) =
      problem "https://acmex.sh/errors/order" ("Order Failed (Status: " <> s <> ")") 400 d
  to_problem_details (storage d) = problem "https://acmex.sh/errors/storage" "Storage Error" 500 d
  to_problem_details (transport d) =
      problem "https://acmex.sh/errors/transport" "Network Transport Error" 502 d
  to_problem_details e =
      problem "https://acmex.sh/errors/internal" "Internal Server Error" 500 (display e)
