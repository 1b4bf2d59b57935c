-- ===== src/Platform.antt =====
-- What the protocol modules call outside the repository: `rcgen` keys and requests, `base64`,
-- `sha2`, `serde_json` and the display of an HTTP status. Nothing is assumed of these here; a
-- theorem that relies on one says so among its hypotheses.
use acmex.Base.{ℕ, String, List}
use acmex.Error.{AcmeError}
use acmex.Act.{Answer}
use acmex.Net.{Directory}
use acmex.Net.Value.{Json}
use acmex.Order.Objects.{Challenge, Authorization, Order}
use acmex.Account.Object.{Account}

-- `Key` stands for `rcgen::KeyPair`.
pub record Platform (Key : Type 0) : Type 0 where
  pub public_key : Key → List ℕ
  pub sign_bytes : Key → List ℕ → Answer (List ℕ)
  -- the n-th key that is generated, and the n-th signing request with its private key
  pub generate : ℕ → Answer Key
  pub csr : ℕ → List String → Answer (List ℕ × String)
  pub base64url : List ℕ → String
  pub sha_256 : List ℕ → List ℕ
  pub utf_8 : String → List ℕ
  -- the text of a value, with an object's keys sorted, in whatever order they stand in the model
  pub json_text : Json → String
  pub status_text : ℕ → String
  -- the error value of a DNS provider behind its text
  pub provider_error : String → AcmeError
  pub show_number : ℕ → String
  pub directory_of : String → Answer Directory
  pub account_of : String → Answer Account
  pub order_of : String → Answer Order
  pub authorization_of : String → Answer Authorization
  pub challenge_of : String → Answer Challenge
