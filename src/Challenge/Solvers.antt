-- ===== src/Challenge/Solvers.antt =====
-- The solvers of src/challenge/ as values, and the registry of src/challenge/mod.rs. A server handle
-- is its listening address; the boxed trait object is a data type with a constructor for each class.
use acmex.Base.{String, Option, none, some, List, [], ◌∷◌, ◌++◌}
use acmex.Types.{ChallengeType, http_01, dns_01, tls_alpn_01}

pub record ServerSolver : Type 0 where
  pub listen_addr : String
  pub key_authorization : Option String
  pub server_handle : Option String

unfoldable pub new_server_solver : String → ServerSolver
new_server_solver addr = record {
  listen_addr = addr;
  key_authorization = none;
  server_handle = none;
}

-- The provider is reached through the effects of the world.
pub record Dns01Solver : Type 0 where
  pub domain : String
  pub record_id : Option String

unfoldable pub new_dns_01_solver : String → Dns01Solver
new_dns_01_solver domain = record { domain = domain; record_id = none }

pub data Solver : Type 0 where
  http : ServerSolver → Solver
  dns : Dns01Solver → Solver
  tls : ServerSolver → Solver

unfoldable pub challenge_type : Solver → ChallengeType
challenge_type (http _) = http_01
challenge_type (dns _) = dns_01
challenge_type (tls _) = tls_alpn_01

-- `HashMap<ChallengeType, Box<dyn ChallengeSolver>>`: a slot for each of the three keys
pub record Registry : Type 0 where
  pub http_slot : Option Solver
  pub dns_slot : Option Solver
  pub tls_slot : Option Solver

abbrev pub empty_registry : Registry
empty_registry = record { http_slot = none; dns_slot = none; tls_slot = none }

unfoldable pub get : Registry → ChallengeType → Option Solver
get r http_01 = r.http_slot
get r dns_01 = r.dns_slot
get r tls_alpn_01 = r.tls_slot

-- `get_mut`, when the solver behind the reference has changed to `s`
unfoldable pub put : Registry → ChallengeType → Solver → Registry
put r http_01 s = record r { http_slot = some s }
put r dns_01 s = record r { dns_slot = some s }
put r tls_alpn_01 s = record r { tls_slot = some s }

unfoldable pub register : Registry → Solver → Registry
unfolding put challenge_type
register r s = put r (challenge_type s) s

abbrev key_if : ChallengeType → Option Solver → List ChallengeType
key_if t none = []
key_if t (some _) = t ∷ []

unfoldable pub supported_types : Registry → List ChallengeType
supported_types r =
    key_if http_01 r.http_slot ++ (key_if dns_01 r.dns_slot ++ key_if tls_alpn_01 r.tls_slot)
