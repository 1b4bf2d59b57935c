-- ===== src/Orchestrator/Validator.antt =====
-- src/orchestrator/validator.rs: checks on the domains before a certificate is asked for.
use acmex.Base.{
  String, ◌<>◌, ◌==◌, ◌≡◌, ◌↔◌, refl, is_none, ◌&&◌, List, [], ◌∷◌, All, if◌then◌else◌,
}
use acmex.Error.{AcmeError}
use acmex.Act.Triple.{both_ok}
use acmex.Act.{Answer, Outcome, ok, err, done, fault, and_then, outcome_of}
use acmex.Config.Settings.{Config}

-- What the standard library's resolver answers, behind the task that asks it.
module _ (to_socket_addrs : String → Answer (Answer (List String))) where
  abbrev pub resolved : String → Answer (List String) → Outcome (Unit {0})
  resolved domain (done []) = err (AcmeError.protocol ("Domain " <> domain <> " does not resolve"))
  resolved domain (done (addr ∷ addrs)) = ok tt
  resolved domain (fault e) = err (AcmeError.protocol ("DNS resolution failed: " <> e))

  unfoldable pub check_dns_resolution : String → Outcome (Unit {0})
  check_dns_resolution domain =
      and_then
        (outcome_of (to_socket_addrs domain) (λ e. AcmeError.protocol ("Task join error: " <> e)))
        (resolved domain)

  abbrev pub reachable : Config → String → Outcome (Unit {0})
  reachable config domain =
      if config.challenge.challenge_type == "http-01" then check_dns_resolution domain else ok tt

  abbrev pub configured : Config → Outcome (Unit {0})
  configured config =
      if config.challenge.challenge_type == "dns-01" && is_none config.challenge.dns_01
      then err (AcmeError.configuration "Missing DNS-01 configuration")
      else ok tt

  unfoldable pub execute : Config → List String → Outcome (Unit {0})
  unfolding check_dns_resolution
  execute config [] = ok tt
  execute config (domain ∷ domains) =
      and_then (reachable config domain)
        (λ _. and_then (configured config) (λ _. execute config domains))

  -- The domain resolves to an address.
  abbrev IsResolved : String → Type 0
  IsResolved domain =
      (addr : String) × (addrs : List String) × (to_socket_addrs domain
        ≡ done (done (addr ∷ addrs)))

  outer_lem :
      (domain : String) (a : Answer (Answer (List String))) (e : String → AcmeError)
      → and_then (outcome_of a e) (resolved domain) ≡ ok tt
      → (addr : String) × (addrs : List String) × (a ≡ done (done (addr ∷ addrs)))
  outer_lem domain (done (done [])) e h = cc
  outer_lem domain (done (done (addr ∷ addrs))) e h = (addr, addrs, refl)
  outer_lem domain (done (fault m)) e h = cc
  outer_lem domain (fault m) e h = cc

  check_dns_resolution_iff :
      (domain : String) → (check_dns_resolution domain ≡ ok tt) ↔ IsResolved domain
  unfolding check_dns_resolution
  check_dns_resolution_iff domain =
      (λ h. outer_lem domain (to_socket_addrs domain) _ h, λ (addr, addrs, e). rw e refl)

  -- With HTTP-01, the domains are validated exactly when each of them resolves to an address.
  execute_iff :
      (config : Config) (domains : List String)
      → config.challenge.challenge_type ≡ "http-01"
      → (execute config domains ≡ ok tt) ↔ All IsResolved domains
  unfolding execute
  execute_iff config [] http = (λ h. tt, λ h. refl)
  execute_iff config (domain ∷ domains) http =
      let (one, one') = check_dns_resolution_iff domain in
      let (more, more') = execute_iff config domains http in
      let (apart, together) = both_ok (check_dns_resolution domain) (execute config domains) in
      rw http (λ h. (one (apart h).0, more (apart h).1), λ a. together (one' a.0, more' a.1))
