-- ===== src/Orchestrator/Fresh.antt =====
-- The workflow of src/orchestrator/provisioner.rs, with all its retries, replays no nonce.
use acmex.Base.{ℕ, zero, suc, ◌≤◌, String, Option, none, some, List, count, arith}
use acmex.Error.{AcmeError}
use acmex.Act.{Outcome, Answer, ok, err, panic, modify}
use acmex.Act.Triple.{After, After-same, Keeps, Keeps-pure, keeps_rules}
use acmex.Net.{World}
use acmex.Platform.{Platform}
use acmex.Protocol.Fresh.{IsFresh, spent, issued}
use acmex.Challenge.Solvers.{Registry}
use acmex.Order.Fresh.{sleep-IsFresh}
use acmex.Client.Config.{AcmeConfig}
use acmex.Client.Fresh.{count_draw-IsFresh, register_account-IsFresh, issue_certificate-IsFresh}
use acmex.Orchestrator.Provisioner.{
  Config, new_client, listen_addr, registry_for, provision, pause, settled, retry, execute,
}

no_account-IsFresh : Keeps IsFresh (modify (λ (w : World). record w { account_id = none }))
no_account-IsFresh = record { run = λ w h. record { paid = h.paid } }

set_solvers-IsFresh :
    (r : Registry) → Keeps IsFresh (modify (λ (w : World). record w { solvers = r }))
set_solvers-IsFresh r = record { run = λ w h. record { paid = h.paid } }

pause-IsFresh :
    {Key : Type 0} (p : Platform Key) (parse : String → Answer String) (n : ℕ)
    → Keeps IsFresh (pause p parse n)
unfolding pause
pause-IsFresh p parse zero = Keeps-pure tt
pause-IsFresh p parse (suc n) = sleep-IsFresh _

module _ {Key : Type 0} (p : Platform Key) (parse : String → Answer String) where
  new_client-IsFresh : (config : AcmeConfig) → Keeps IsFresh (new_client p parse config)
  unfolding new_client
  new_client-IsFresh config = search (keeps_rules, count_draw-IsFresh, no_account-IsFresh) depth 10

  listen_addr-IsFresh : (o : Option String) → Keeps IsFresh (listen_addr p parse o)
  listen_addr-IsFresh none = Keeps-pure _
  listen_addr-IsFresh (some addr) = search keeps_rules

  registry_for-IsFresh : (config : Config) → Keeps IsFresh (registry_for p parse config)
  unfolding registry_for
  registry_for-IsFresh config = search (keeps_rules, listen_addr-IsFresh) depth 10

  provision-IsFresh :
      (config : Config) (domains : List String) → Keeps IsFresh (provision p parse config domains)
  unfolding provision
  provision-IsFresh config domains =
      search
        (
          keeps_rules, new_client-IsFresh, register_account-IsFresh, registry_for-IsFresh,
          set_solvers-IsFresh, issue_certificate-IsFresh,
        )
        depth 14

  settled-IsFresh :
      (r : Outcome (Unit {0})) (next : AcmeError → World → Outcome (Unit {0}) × World) (w : World)
      → ((e : AcmeError) → Keeps IsFresh (next e))
      → IsFresh w
      → IsFresh (settled p parse r next w).1
  settled-IsFresh (ok a) next w k h = h
  settled-IsFresh (err e) next w k h = After-same IsFresh (next e w).0 (next e w).1 ((k e).run w h)
  settled-IsFresh (panic m) next w k h = h

  same-After : (r : Outcome (Unit {0})) (w : World) → IsFresh w → After (λ _. IsFresh) IsFresh r w
  same-After (ok a) w h = h
  same-After (err e) w h = h
  same-After (panic m) w h = h

  retry-IsFresh :
      (config : Config) (domains : List String) (left count : ℕ) (last : Option AcmeError)
      → Keeps IsFresh (retry p parse config domains left count last)
  unfolding retry
  retry-IsFresh config domains zero count none = record { run = λ w h. h }
  retry-IsFresh config domains zero count (some e) = record { run = λ w h. h }
  retry-IsFresh config domains (suc left) count last = record {
    run = λ w h.
        let paused =
          After-same IsFresh (pause p parse count w).0 (pause p parse count w).1
            ((pause-IsFresh p parse count).run w h) in
        let attempt = provision p parse config domains (pause p parse count w).1 in
        let tried =
          After-same IsFresh attempt.0 attempt.1
            ((provision-IsFresh config domains).run _ paused) in
        same-After _ _ (
          settled-IsFresh attempt.0 _ attempt.1
            (λ e. retry-IsFresh config domains left (suc count) (some e)) tried);
  }

  -- However many attempts it takes and however they end, the workflow sends no nonce more often than
  -- the server's responses have carried it, from a state in which that held.
  pub execute-replays_none :
      (config : Config) (domains : List String) (w : World) (n : String)
      → IsFresh w
      → let log = (execute p parse config domains w).1.log in
        count n (spent log) ≤ count n (issued log)
  unfolding execute
  execute-replays_none config domains w n h = omega (
    arith,
    (After-same IsFresh (execute p parse config domains w).0 (execute p parse config domains w).1
          ((retry-IsFresh config domains 4 0 none).run w h)).paid
        n,
  )
