-- ===== src/Protocol/Nonce.antt =====
-- src/protocol/nonce.rs: the nonces that the server handed out and no request has used. The vector
-- is kept last pushed first.
use acmex.Base.{ℕ, String, ◌<>◌, not, Option, none, some, List, [], ◌∷◌, length}
use acmex.Error.{AcmeError}
use acmex.Act.{pure, gets, modify, ok_or, refuse_if, ok, ◌>>=◌, ◌>>◌}
use acmex.Net.{Io, Response, headed, send, header, is_success}
use acmex.Platform.{Platform}

module _ {Key : Type 0} (p : Platform Key) where
  unfoldable pub fetch_nonce : String → Io String
  fetch_nonce url = do
    response ← send (headed url) "Failed to fetch nonce"
    refuse_if (not (is_success response.status))
        (AcmeError.protocol ("Failed to fetch nonce: HTTP " <> p.status_text response.status))
    ok_or (header response "replay-nonce") (AcmeError.protocol "Missing replay-nonce header")

  -- `pool.pop()`, or else a fresh one
  unfoldable pub pop_or_fetch : String → List String → Io String
  pop_or_fetch url [] w = fetch_nonce url w
  pop_or_fetch url (nonce ∷ rest) w = (ok nonce, record w { pool = rest })

  unfoldable pub get_nonce : String → Io String
  unfolding pop_or_fetch
  get_nonce url w = pop_or_fetch url w.pool w

unfoldable pub cache_nonce : String → Io (Unit {0})
cache_nonce nonce = modify (λ w. record w { pool = nonce ∷ w.pool })

unfoldable pub clear_pool : Io (Unit {0})
clear_pool = modify (λ w. record w { pool = [] })

unfoldable pub pool_size : Io ℕ
pool_size = gets (λ w. length w.pool)

-- `if let Some(h) = headers().get("replay-nonce") && let Ok(s) = h.to_str() { cache_nonce(s) }`,
-- which every signed request does with its response
unfoldable pub cache_if_some : Option String → Io (Unit {0})
unfolding cache_nonce
cache_if_some none = pure tt
cache_if_some (some nonce) = cache_nonce nonce

unfoldable pub cache_from : Response → Io (Unit {0})
unfolding cache_if_some
cache_from response = cache_if_some (header response "replay-nonce")
