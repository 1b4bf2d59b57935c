-- ===== src/Challenge/Steps.antt =====
-- What the solvers of src/challenge/ do: http01.rs, dns01.rs and tls_alpn01.rs, each method as an
-- action that writes the changed solver back to its place in the registry.
use acmex.Base.{ℕ, String, ◌<>◌, Bool, Option, none, some, List, is_some, if◌then◌else◌}
use acmex.Error.{AcmeError}
use acmex.Act.{pure, modify, ◌>>=◌, ◌>>◌}
use acmex.Net.{Io, bound, certified, txt_created, txt_deleted, serving, aborted, effect, note}
use acmex.Types.{Identifier}
use acmex.Platform.{Platform}
use acmex.Challenge.Solvers.{ServerSolver, Dns01Solver, Solver, http, dns, tls, challenge_type, put}
use text.Mathlib.Text.{find?}

-- `*self = ..` behind the registry's `&mut`
abbrev pub write_back : Solver → Io (Unit {0})
write_back s = modify (λ w. record w { solvers = put w.solvers (challenge_type s) s })

-- `Http01Solver::start_server`: bind, then serve in a task of its own
start_http : ServerSolver → Io (Unit {0})
start_http s = do
  _ ← effect (bound s.listen_addr) (λ e. AcmeError.transport ("Failed to bind HTTP server: " <> e))
  note (serving s.listen_addr)
  write_back (http (record s { server_handle = some s.listen_addr }))

-- `TlsAlpn01Solver::start_server`: the certificate and the TLS configuration come first
start_tls : ServerSolver → String → List ℕ → Io (Unit {0})
start_tls s domain digest = do
  _ ← effect (certified domain digest) AcmeError.crypto
  _ ← effect (bound s.listen_addr) (λ e. AcmeError.transport ("Failed to bind TLS server: " <> e))
  note (serving s.listen_addr)
  write_back (tls (record s { server_handle = some s.listen_addr }))

-- The name under which a DNS-01 record stands.
abbrev pub record_name : Dns01Solver → String
record_name s = "_acme-challenge." <> s.domain

module _ {Key : Type 0} (p : Platform Key) where
  open p use {base64url, sha_256, utf_8}

  abbrev pub digest_of : String → List ℕ
  digest_of key_auth = sha_256 (utf_8 key_auth)

  unfoldable pub prepare : Solver → Identifier → String → Io (Unit {0})
  unfolding start_http start_tls
  prepare (http s) identifier key_auth = do
    let s' = record s { key_authorization = some key_auth }
    write_back (http s')
    start_http s'
  prepare (dns s) identifier key_auth = do
    id ← effect (txt_created (record_name s) (base64url (digest_of key_auth))) p.provider_error
    write_back (dns (record s { record_id = some id }))
  prepare (tls s) identifier key_auth = do
    let s' = record s { key_authorization = some key_auth }
    write_back (tls s')
    start_tls s' identifier.value (digest_of key_auth)

-- `present` of each solver only logs.
unfoldable pub present : Solver → Io (Unit {0})
present s = pure tt

unfoldable pub verify : Solver → Bool
verify (http s) = is_some s.key_authorization
verify (dns s) = is_some s.record_id
verify (tls s) = is_some s.key_authorization

abbrev stop : Option String → Io (Unit {0})
stop none = pure tt
stop (some addr) = note (aborted addr)

module _ {Key : Type 0} (p : Platform Key) where
  open p use {provider_error}

  abbrev delete_txt : Dns01Solver → Option String → Io (Unit {0})
  delete_txt s none = pure tt
  delete_txt s (some id) = do
    write_back (dns (record s { record_id = none }))
    _ ← effect (txt_deleted (record_name s) id) provider_error
    pure tt

  -- `take()` empties the handle, or the record's id, before what it names is stopped or deleted.
  unfoldable pub cleanup : Solver → Io (Unit {0})
  cleanup (http s) = do
    write_back (http (record s { key_authorization = none; server_handle = none }))
    stop s.server_handle
  cleanup (dns s) = delete_txt s s.record_id
  cleanup (tls s) = do
    write_back (tls (record s { key_authorization = none; server_handle = none }))
    stop s.server_handle

-- `handle_challenge`: the body that is served, or `none` for 404
unfoldable pub handle_challenge : Option String → String → Option String
handle_challenge none token = none
handle_challenge (some auth) token = if is_some (find? auth token) then some auth else none
