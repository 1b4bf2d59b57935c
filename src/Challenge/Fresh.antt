-- ===== src/Challenge/Fresh.antt =====
-- The solvers of src/challenge/ send no signed request, so they keep the account of nonces.
use acmex.Base.{String}
use acmex.Error.{AcmeError}
use acmex.Act.Triple.{Keeps, Keeps-pure, keeps_rules}
use acmex.Net.{note, effect, serving, bound, certified, txt_created}
use acmex.Net.Cases.{effect_rule}
use acmex.Types.{Identifier}
use acmex.Challenge.Solvers.{Solver, http, dns, tls}
use acmex.Challenge.Steps.{write_back, prepare, present}
use acmex.Platform.{Platform}
use acmex.Protocol.Fresh.{IsFresh}

write_back-IsFresh : (s : Solver) → Keeps IsFresh (write_back s)
write_back-IsFresh s = record { run = λ w h. record { paid = h.paid } }

serving-IsFresh : (addr : String) → Keeps IsFresh (note (serving addr))
serving-IsFresh addr = record { run = λ w h. record { paid = h.paid } }

bound-IsFresh : (addr : String) (e : String → AcmeError) → Keeps IsFresh (effect (bound addr) e)
bound-IsFresh addr e = effect_rule IsFresh (bound addr) e (λ w rest h. record { paid = h.paid })

certified-IsFresh :
    (d : String) (x : _) (e : String → AcmeError) → Keeps IsFresh (effect (certified d x) e)
certified-IsFresh d x e =
    effect_rule IsFresh (certified d x) e (λ w rest h. record { paid = h.paid })

txt_created-IsFresh :
    (n v : String) (e : String → AcmeError) → Keeps IsFresh (effect (txt_created n v) e)
txt_created-IsFresh n v e =
    effect_rule IsFresh (txt_created n v) e (λ w rest h. record { paid = h.paid })

ruleset solver_rules = (
  keeps_rules, write_back-IsFresh, serving-IsFresh, bound-IsFresh, certified-IsFresh,
  txt_created-IsFresh,
)

module _ {Key : Type 0} (p : Platform Key) where
  pub prepare-IsFresh :
      (s : Solver) (i : Identifier) (auth : String) → Keeps IsFresh (prepare p s i auth)
  unfolding prepare
  prepare-IsFresh (http s) i auth = search solver_rules depth 10
  prepare-IsFresh (dns s) i auth = search solver_rules depth 10
  prepare-IsFresh (tls s) i auth = search solver_rules depth 10

  pub present-IsFresh : (s : Solver) → Keeps IsFresh (present s)
  unfolding present
  present-IsFresh s = Keeps-pure tt
