-- ===== src/Client/Once.antt =====
-- Authorizing and generating a key forget nothing that the log has shown.
use acmex.Base.{String, List, [], ◌∷◌}
use acmex.Act.Triple.{Keeps, Keeps-bind, Keeps-pure, keeps_rules}
use acmex.Net.{Event}
use acmex.Platform.{Platform}
use acmex.Protocol.Request.{Manager}
use acmex.Protocol.Once.{Once}
use acmex.Challenge.Once.{prepare-Once, present-Once}
use acmex.Order.Once.{get_authorization-Once, respond_to_challenge-Once}
use acmex.Client.Issue.{count_draw, generate, authorize, authorize_all}

module _ (P : List Event → Type 0) where
  count_draw-Once : Keeps (Once P) count_draw
  count_draw-Once = record { run = λ w h. record { earlier = h.earlier } }

  module _ {Key : Type 0} (p : Platform Key) where
    pub generate-Once : (ds : List String) → Keeps (Once P) (generate p ds)
    unfolding generate
    generate-Once ds = search (keeps_rules, count_draw-Once) depth 10

    module _ (m : Manager Key) (id : String) where
      authorize-Once : (url : String) → Keeps (Once P) (authorize p m id url)
      unfolding authorize
      authorize-Once url =
          search
            (
              keeps_rules, get_authorization-Once, respond_to_challenge-Once, prepare-Once,
              present-Once,
            )
            depth 24

      pub authorize_all-Once : (urls : List String) → Keeps (Once P) (authorize_all p m id urls)
      unfolding authorize_all
      authorize_all-Once [] = Keeps-pure tt
      authorize_all-Once (url ∷ rest) =
          Keeps-bind (authorize-Once url) (λ _. authorize_all-Once rest)
