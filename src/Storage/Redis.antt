-- ===== src/Storage/Redis.antt =====
-- src/storage/redis.rs: values in a Redis server.
use acmex.Base.{ℕ, String, ◌<>◌, Bool, Option, List, [], ◌∷◌, if◌then◌else◌}
use acmex.Base.Dict.{Dict, get, insert, remove, keys}
use acmex.Error.{AcmeError}
use acmex.Act.{Act, Answer, done, gets, modify, or_raise, ◌>>◌}
use acmex.Storage.Backend.{Backend}
use acmex.Storage.Files.{ending}

-- The server's values, and how the next calls end, where they do not succeed.
pub record RedisServer : Type 0 where
  pub entries : Dict (List ℕ)
  pub faults : List (Option String)

abbrev pub next_fault : List (Option String) → RedisServer → Answer (Unit {0}) × RedisServer
next_fault [] r = (done tt, r)
next_fault (o ∷ rest) r = (ending o, record r { faults = rest })

-- a command, whose error is displayed behind what it was
unfoldable pub command : String → Act RedisServer (Unit {0})
command what r =
    let (a, r') = next_fault r.faults r in or_raise a (λ e. AcmeError.storage (what <> e)) r'

abbrev pub conn : Act RedisServer (Unit {0})
conn = command "Redis conn error: "

-- Which keys a pattern of `KEYS` matches is Redis'.
module _ (matches : String → String → Bool) where
  abbrev pub matched : String → List String → List String
  matched pattern_ [] = []
  matched pattern_ (k ∷ ks) =
      let rest = matched pattern_ ks in if matches pattern_ k then k ∷ rest else rest

  unfoldable pub redis_storage : Backend RedisServer
  unfolding command
  redis_storage = record {
    store = λ key value. do
      conn
      command "Redis set error: "
      modify (λ r. record r { entries = insert r.entries key value });
    load = λ key. do
      conn
      command "Redis get error: "
      gets (λ r. get r.entries key);
    delete = λ key. do
      conn
      command "Redis del error: "
      modify (λ r. record r { entries = remove r.entries key });
    list = λ prefix. do
      conn
      command "Redis keys error: "
      gets (λ r. matched (prefix <> "*") (keys r.entries));
  }
