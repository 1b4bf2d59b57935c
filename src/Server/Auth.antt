-- ===== src/Server/Auth.antt =====
-- src/server/auth.rs, and the keys that `start_server` of src/server/api.rs reads.
use acmex.Base.{String, Bool, true, false, unwrap_or, Option, none, some, List, map}
use acmex.Base.Split.{split_at}
use acmex.Storage.Backend.{contains}
use acmex.Server.State.{ApiResponse}
use acmex.Net.Value.{null}

-- `str::trim` is the standard library's.
unfoldable pub load_api_keys : (String → String) → Option String → List String
unfolding split_at
load_api_keys trim api_keys = map trim (split_at 44 (unwrap_or api_keys "secret-admin-key"))

-- `StatusCode::UNAUTHORIZED`
abbrev pub unauthorized : ApiResponse
unauthorized = record { status = 401; body = null }

-- The header `X-API-Key`, where it is there and is a text; and the handler behind the layer.
module _ {S : Type 0} where
  abbrev pub guarded : Bool → (S → ApiResponse × S) → S → ApiResponse × S
  guarded true next s = next s
  guarded false next s = (unauthorized, s)

  unfoldable pub api_key_auth :
      List String → Option String → (S → ApiResponse × S) → S → ApiResponse × S
  api_key_auth api_keys none next s = (unauthorized, s)
  api_key_auth api_keys (some key) next s = guarded (contains api_keys key) next s
