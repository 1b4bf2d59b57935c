-- ===== src/Net/Cases.antt =====
-- How a request can come back, as a rule for the actions of the network.
use acmex.Base.{String, ◌<>◌, List, [], ◌∷◌}
use acmex.Error.{AcmeError}
use acmex.Act.{Answer, done, fault, or_raise}
use acmex.Act.Triple.{Triple, Keeps, After}
use acmex.Net.{
  World, Event, Reply, Response, received, response, failure, answer, exchange, send, effect,
  effect_answer,
}

module _ {ℓ} (Q : Response → World → Type ℓ) (E : World → Type ℓ) (e : Event) (what : String) where
  answered :
      (w : World) (replies : List Reply)
      → ((rest : List Reply) → E (record w { replies = rest; log = e ∷ w.log }))
      → ((r : Response) (rest : List Reply)
          → Q r (record w { replies = rest; log = received r ∷ e ∷ w.log }))
      → let (a, w') = answer replies e w in
        let out = or_raise a (λ m. AcmeError.transport (what <> ": " <> m)) w' in
        After Q E out.0 out.1
  unfolding answer
  answered w [] lost got = lost w.replies
  answered w (failure m ∷ rest) lost got = lost rest
  answered w (response r ∷ rest) lost got = got r rest

  -- A request fails and is logged, or is answered and both are logged.
  pub send_rule :
      {P : World → Type ℓ}
      → ((w : World) (rest : List Reply) → P w → E (record w { replies = rest; log = e ∷ w.log }))
      → ((w : World) (r : Response) (rest : List Reply)
          → P w
          → Q r (record w { replies = rest; log = received r ∷ e ∷ w.log }))
      → Triple P (send e what) Q E
  unfolding send exchange
  send_rule lost got = record {
    run = λ w h. answered w w.replies (λ rest. lost w rest h) (λ r rest. got w r rest h);
  }

module _ {ℓ} (P : World → Type ℓ) (e : Event) (raised : String → AcmeError) where
  effected :
      (w : World) (answers : List (Answer String))
      → ((rest : List (Answer String)) → P (record w { effects = rest; log = e ∷ w.log }))
      → let (a, w') = effect_answer answers e w in
        let out = or_raise a raised w' in After (λ _. P) P out.0 out.1
  unfolding effect_answer
  effected w [] kept = kept w.effects
  effected w (done s ∷ rest) kept = kept rest
  effected w (fault m ∷ rest) kept = kept rest

  -- An effect uses up an answer and is logged, whether it succeeds or not.
  pub effect_rule :
      ((w : World) (rest : List (Answer String))
        → P w
        → P (record w { effects = rest; log = e ∷ w.log }))
      → Keeps P (effect e raised)
  unfolding effect
  effect_rule kept = record { run = λ w h. effected w w.effects (λ rest. kept w rest h) }
