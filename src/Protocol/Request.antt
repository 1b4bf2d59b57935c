-- ===== src/Protocol/Request.antt =====
-- What every signed request of the program does: take a nonce, sign, post, and keep the nonce of the
-- response. The operations of the account, order and revocation modules spell it out one by one.
use acmex.Base.{String, none, some}
use acmex.Act.{pure, lift, ◌>>=◌, ◌>>◌}
use acmex.Net.{Io, Response, JwsHeader, posted, send}
use acmex.Net.Value.{Json}
use acmex.Platform.{Platform}
use acmex.Protocol.Jws.{header_json, sign}
use acmex.Protocol.Nonce.{get_nonce, cache_from}

-- The account manager: its key, and where its directory and nonces come from.
pub record Manager (Key : Type 0) : Type 0 where
  pub key : Key
  pub nonce_url : String
  pub directory_url : String

-- `jwk` in the request that registers, `kid` in all others
pub data Signer : Type 0 where
  by_jwk : Json → Signer
  by_kid : String → Signer

abbrev pub protected_header : Signer → String → String → JwsHeader
protected_header (by_jwk j) nonce url = record {
  alg = "EdDSA";
  jwk = some j;
  kid = none;
  nonce = nonce;
  url = url;
}
protected_header (by_kid k) nonce url = record {
  alg = "EdDSA";
  jwk = none;
  kid = some k;
  nonce = nonce;
  url = url;
}

module _ {Key : Type 0} (p : Platform Key) (m : Manager Key) where
  open m use {key, nonce_url}

  -- `what` begins the text of a transport error
  unfoldable pub post_with : String → Signer → String → Json → String → Io Response
  post_with nonce signer url payload what = do
    let head = protected_header signer nonce url
    jws ← lift (sign p key (header_json head) payload)
    response ← send (posted url head payload jws) what
    cache_from response
    pure response

  unfoldable pub signed_post : Signer → String → Json → String → Io Response
  signed_post signer url payload what = do
    nonce ← get_nonce p nonce_url
    post_with nonce signer url payload what
