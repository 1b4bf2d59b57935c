-- ===== src/Cli/Pem.antt =====
-- What the commands of src/cli/commands/ call outside the repository: the `x509-parser` crate, the text of
-- a file and the formats of times and keys.
use acmex.Base.{ℕ, String, List, ◌+◌, ◌-◌, ◌%◌, ◌^◌}
use acmex.Error.{AcmeError}
use acmex.Act.{Act, Answer, or_raise, ◌>>=◌}

-- An `i64` over the native numbers
pub data ℤ : Type 0 where
  pos negsuc : ℕ → ℤ

-- `as u64`
unfoldable pub as_u64 : ℤ → ℕ
as_u64 (pos n) = n % 2 ^ 64
as_u64 (negsuc n) = 2 ^ 64 - (n + 1)

-- The time of an X.509 certificate's end is in seconds from the epoch. A time of `jiff` is in milliseconds,
-- and may not hold the given one.
pub record Tools (Key : Type 0) : Type 0 where
  pub parse_x509_pem : List ℕ → Answer (List ℕ)
  pub parse_x509_certificate : List ℕ → Answer ℤ
  pub from_millisecond : ℤ → Answer ℤ
  pub pem_contents : List ℕ → Answer (List ℕ)
  pub read_utf_8 : List ℕ → Answer String
  pub key_from_pem : String → Answer Key
  pub serialize_pem : Key → String
  -- `strftime("%Y%m%d_%H%M%S")`
  pub date : ℕ → String
  pub to_lowercase : String → String

module _ {Key : Type 0} (t : Tools Key) where
  -- the end of the first certificate of a PEM text
  unfoldable pub parse_not_after {ℓ} : {S : Type ℓ} → List ℕ → Act S ℤ
  parse_not_after content = do
    contents ←
        or_raise (t.parse_x509_pem content)
          (λ _. AcmeError.certificate "Failed to parse certificate PEM")
    or_raise (t.parse_x509_certificate contents)
        (λ _. AcmeError.certificate "Failed to parse X.509 certificate")
