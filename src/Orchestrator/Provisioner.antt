-- ===== src/Orchestrator/Provisioner.antt =====
-- src/orchestrator/provisioner.rs: issuing a certificate as the configuration says, with retries.
use acmex.Base.{
  ℕ, zero, suc, ◌^◌, String, ◌<>◌, ◌≡◌, refl, ap, ◌∙◌, ◌==◌, Bool, Option, none, some, List, [],
  ◌∷◌, if◌then◌else◌,
}
use acmex.Error.{AcmeError}
use acmex.Act.{Outcome, Answer, ok, err, panic, pure, fail, gets, modify, or_raise, ◌>>=◌, ◌>>◌}
use acmex.Net.{World, Io, sleep}
use acmex.Types.{contact_email, contact_url}
use acmex.Platform.{Platform}
use acmex.Challenge.Solvers.{Registry, empty_registry, new_server_solver, http, tls, register}
use acmex.Client.Config.{AcmeConfig, Client, new, with_contact, with_tos_agreed, register_account}
use acmex.Client.Issue.{count_draw, issue_certificate}
use Prim.Native.String.{slice, len}
use text.Mathlib.Text.{starts_with}

-- the part of `Config` that is read
pub record Config : Type 0 where
  pub directory : String
  pub tos_agreed : Bool
  pub contact : List String
  pub challenge_type : String
  -- the listening address of `challenge.http01`, if there is such a section
  pub http_01_listen_addr : Option String
  pub has_dns_01 : Bool

-- the contacts in turn: `strip_prefix("mailto:")`, and `&contact[7..]`
unfoldable pub with_contacts : AcmeConfig → List String → AcmeConfig
with_contacts config [] = config
with_contacts config (contact ∷ rest) =
    with_contacts
      (with_contact config (
        if starts_with contact "mailto:"
        then contact_email (slice contact 7 (len contact))
        else contact_url contact))
      rest

unfoldable pub acme_config : Config → AcmeConfig
unfolding with_contacts
acme_config config =
    with_contacts (with_tos_agreed (new config.directory) config.tos_agreed) config.contact

-- `parse::<SocketAddr>` is the standard library's, on an address of the configuration.
module _ {Key : Type 0} (p : Platform Key) (parse : String → Answer String) where
  -- `AcmeClient::new`: a key of its own, and no account yet
  unfoldable pub new_client : AcmeConfig → Io (Client Key)
  new_client config = do
    n ← gets (λ w. w.draws)
    count_draw
    key_pair ←
        or_raise (p.generate n) (λ e. AcmeError.crypto ("Failed to generate key pair: " <> e))
    modify (λ w. record w { account_id = none })
    pure (record { config = config; key_pair = key_pair })

  abbrev pub listen_addr : Option String → Io String
  listen_addr none = pure "0.0.0.0:80"
  listen_addr (some addr) =
      or_raise (parse addr) (λ e. AcmeError.configuration ("Invalid HTTP listen address: " <> e))

  -- the registry for the configured challenge type
  unfoldable pub registry_for : Config → Io Registry
  registry_for config =
      if config.challenge_type == "http-01"
      then (listen_addr config.http_01_listen_addr >>= λ addr.
          pure (register empty_registry (http (new_server_solver addr))))
      else if config.challenge_type == "tls-alpn-01"
      then pure (register empty_registry (tls (new_server_solver "0.0.0.0:443")))
      else if config.challenge_type == "dns-01"
      then (if config.has_dns_01
          then pure empty_registry
          else fail (AcmeError.configuration "DNS-01 selected but no DNS config found"))
      else fail (AcmeError.configuration ("Unsupported challenge type: " <> config.challenge_type))

  unfoldable pub provision : Config → List String → Io (Unit {0})
  unfolding acme_config new_client registry_for
  provision config domains = do
    client ← new_client (acme_config config)
    _ ← register_account p client
    registry ← registry_for config
    modify (λ w. record w { solvers = registry })
    _ ← issue_certificate p client domains
    pure tt

  -- `if retry_count > 0 { sleep(2^retry_count s) }`
  unfoldable pub pause : ℕ → Io (Unit {0})
  pause zero = pure tt
  pause (suc n) = sleep (2 ^ suc n)

  -- what the attempt that has returned leads to
  abbrev pub settled : Outcome (Unit {0}) → (AcmeError → Io (Unit {0})) → Io (Unit {0})
  settled (ok a) next w = (ok tt, w)
  settled (err e) next w = next e w
  settled (panic m) next w = (panic m, w)

  -- The loop, by the attempts left, with the retries made and the last error.
  unfoldable pub retry : Config → List String → ℕ → ℕ → Option AcmeError → Io (Unit {0})
  unfolding provision pause
  retry config domains zero count none w =
      (err (AcmeError.protocol "Provisioning failed after maximum retries"), w)
  retry config domains zero count (some e) w = (err e, w)
  retry config domains (suc left) count last w =
      let (_, w') = pause count w in
      let (r, w'') = provision config domains w' in
      settled r (λ e. retry config domains left (suc count) (some e)) w''

  -- `max_retries` is 3, so there are four attempts at most.
  unfoldable pub execute : Config → List String → Io (Unit {0})
  unfolding retry
  execute config domains = retry config domains 4 0 none

  pair_eq :
      (out : Outcome (Unit {0}) × World) (e : AcmeError) → out.0 ≡ err e → out ≡ (err e, out.1)
  pair_eq out e h = ap (λ r. (r, out.1)) h

  -- An attempt after so many retries fails so.
  abbrev pub Fails : Config → List String → ℕ → World → AcmeError → World → Type 0
  Fails config domains count w e w' = provision config domains (pause count w).1 ≡ (err e, w')

  -- A run of attempts that all fail, the last with this error.
  pub data AllFail (config : Config) (domains : List String)
      : ℕ → ℕ → World → AcmeError → World → Type 0 where
    last :
        {count : ℕ} {w w' : World} {e : AcmeError}
        → Fails config domains count w e w'
        → AllFail config domains 1 count w e w'
    more :
        {left count : ℕ} {w w' w'' : World} {e e' : AcmeError}
        → Fails config domains count w e w'
        → AllFail config domains left (suc count) w' e' w''
        → AllFail config domains (suc left) count w e' w''

  settled_err :
      (r : Outcome (Unit {0})) (next : AcmeError → Io (Unit {0})) (w w' : World) (e : AcmeError)
      → settled r next w ≡ (err e, w')
      → (e' : AcmeError) × (r ≡ err e') × (next e' w ≡ (err e, w'))
  settled_err (ok a) next w w' e h = cc
  settled_err (err e') next w w' e h = (e', refl, h)
  settled_err (panic m) next w w' e h = cc

  retry-AllFail :
      (config : Config) (domains : List String) (left count : ℕ) (before : Option AcmeError)
      (w w' : World) (e : AcmeError)
      → retry config domains (suc left) count before w ≡ (err e, w')
      → AllFail config domains (suc left) count w e w'
  unfolding retry
  retry-AllFail config domains zero count before w w' e h =
      let attempt = provision config domains (pause count w).1 in
      let (e', failed, rest) = settled_err attempt.0 _ attempt.1 w' e h in
      last (pair_eq attempt e' failed ∙ rest)
  retry-AllFail config domains (suc left) count before w w' e h =
      let attempt = provision config domains (pause count w).1 in
      let (e', failed, rest) = settled_err attempt.0 _ attempt.1 w' e h in
      more (pair_eq attempt e' failed)
        (retry-AllFail config domains left (suc count) (some e') attempt.1 w' e rest)

  -- Where the workflow fails, exactly four attempts were made and each of them failed, the second to
  -- the fourth after a sleep of 2, 4 and 8 seconds in the world that the one before had left; the
  -- error is the last attempt's.
  pub execute-AllFail :
      (config : Config) (domains : List String) (w w' : World) (e : AcmeError)
      → execute config domains w ≡ (err e, w')
      → AllFail config domains 4 0 w e w'
  unfolding execute
  execute-AllFail config domains w w' e h = retry-AllFail config domains 3 0 none w w' e h
