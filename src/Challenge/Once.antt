-- ===== src/Challenge/Once.antt =====
-- The solvers of src/challenge/ forget nothing that the log has shown.
use acmex.Base.{String, List}
use acmex.Error.{AcmeError}
use acmex.Act.Triple.{Keeps, Keeps-pure, keeps_rules}
use acmex.Net.{Event, note, effect, serving, bound, certified, txt_created}
use acmex.Net.Cases.{effect_rule}
use acmex.Types.{Identifier}
use acmex.Challenge.Solvers.{Solver, http, dns, tls}
use acmex.Challenge.Steps.{write_back, prepare, present}
use acmex.Platform.{Platform}
use acmex.Protocol.Once.{Once, Earlier-cons}

module _ (P : List Event → Type 0) where
  write_back-Once : (s : Solver) → Keeps (Once P) (write_back s)
  write_back-Once s = record { run = λ w h. record { earlier = h.earlier } }

  serving-Once : (addr : String) → Keeps (Once P) (note (serving addr))
  serving-Once addr = record { run = λ w h. record { earlier = Earlier-cons _ h.earlier } }

  bound-Once : (addr : String) (e : String → AcmeError) → Keeps (Once P) (effect (bound addr) e)
  bound-Once addr e =
      effect_rule (Once P) (bound addr) e
        (λ w rest h. record { earlier = Earlier-cons _ h.earlier })

  certified-Once :
      (d : String) (x : _) (e : String → AcmeError) → Keeps (Once P) (effect (certified d x) e)
  certified-Once d x e =
      effect_rule (Once P) (certified d x) e
        (λ w rest h. record { earlier = Earlier-cons _ h.earlier })

  txt_created-Once :
      (n v : String) (e : String → AcmeError) → Keeps (Once P) (effect (txt_created n v) e)
  txt_created-Once n v e =
      effect_rule (Once P) (txt_created n v) e
        (λ w rest h. record { earlier = Earlier-cons _ h.earlier })

  module _ {Key : Type 0} (p : Platform Key) where
    pub prepare-Once :
        (s : Solver) (i : Identifier) (auth : String) → Keeps (Once P) (prepare p s i auth)
    unfolding prepare
    prepare-Once (http s) i auth =
        search (keeps_rules, write_back-Once, serving-Once, bound-Once) depth 10
    prepare-Once (dns s) i auth = search (keeps_rules, write_back-Once, txt_created-Once) depth 10
    prepare-Once (tls s) i auth =
        search (keeps_rules, write_back-Once, serving-Once, bound-Once, certified-Once) depth 10

    pub present-Once : (s : Solver) → Keeps (Once P) (present s)
    unfolding present
    present-Once s = Keeps-pure tt
