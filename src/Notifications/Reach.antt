-- ===== src/Notifications/Reach.antt =====
-- That no webhook of src/notifications/mod.rs is left out because another one fails.
use acmex.Base.{
  ℕ, zero, suc, ◌<◌, ◌≡◌, refl, subst, String, Bool, true, false, not, eqb, List, [], ◌∷◌,
  if◌then◌else◌, arith, ◌&&◌, ltb, ltb→lt, All,
}
use mathlib.Core.List.{Memᴰ}
use acmex.Act.Triple.{Anything}
use acmex.Error.{AcmeError}
use acmex.Act.{
  Act, Answer, done, fault, Outcome, ok, err, panic, catch, attend, resume, pure, fail, refuse_if,
  ◌>>=◌, ◌>>◌,
}
use acmex.Net.Value.{Json}
use acmex.Notifications.Event.{WebhookEvent, WebhookConfig, contains, format_event}
use acmex.Notifications.Send.{
  HookEvent, bearer, sleep, posted, slept, Wire, hook_answer, exchange, send_once, send_from, send,
  send_event,
}

abbrev Quiet : Outcome (Unit {0}) → Type 0
Quiet (panic _) = ⊥
Quiet _ = Unit

-- The action does not panic, and leads from `P` to `Q` whether it returns or fails.
record Runs (P : Wire → Type 0) (m : Act Wire (Unit {0})) (Q : Wire → Type 0) : Type 0 where
  run : (w : Wire) → P w → Quiet (m w).0 × Q (m w).1

module _ {Q R : Wire → Type 0} (f : Unit {0} → Act Wire (Unit {0}))
    (g : AcmeError → Act Wire (Unit {0})) where
  attended :
      Runs Q (f tt) R
      → ((e : AcmeError) → Runs Q (g e) R)
      → (r : Outcome (Unit {0})) (w : Wire) → Quiet r
      → Q w
      → Quiet (attend r f g w).0 × R (attend r f g w).1
  attended kf kg (ok a) w c h = kf.run w h
  attended kf kg (err e) w c h = (kg e).run w h
  attended kf kg (panic t) w c h = absurd c

  catch-Runs :
      {P : Wire → Type 0} {m : Act Wire (Unit {0})}
      → Runs P m Q
      → Runs Q (f tt) R
      → ((e : AcmeError) → Runs Q (g e) R)
      → Runs P (catch m f g) R
  unfolding catch
  catch-Runs {m} km kf kg = record {
    run = λ w h. let (c, q) = km.run w h in attended kf kg (m w).0 (m w).1 c q;
  }

module _ {P : Wire → Type 0} where
  Runs-if :
      (b : Bool) {m n : Act Wire (Unit {0})} {Q : Wire → Type 0}
      → Runs P m Q
      → Runs P n Q
      → Runs P (if b then m else n) Q
  Runs-if true km kn = km
  Runs-if false km kn = kn

  Runs-pure : Runs P (pure tt) P
  Runs-pure = record { run = λ w h. (tt, h) }

  Runs-fail : (e : AcmeError) → Runs P (fail e) P
  Runs-fail e = record { run = λ w h. (tt, h) }

-- A run that returns.
record Passes (P : Wire → Type 0) (m : Act Wire (Unit {0})) (Q : Wire → Type 0) : Type 0 where
  pass : (w : Wire) → P w → ((m w).0 ≡ ok tt) × Q (m w).1

module _ (Q : Wire → Type 0) where
  swallowed :
      (r : Outcome (Unit {0})) (w : Wire)
      → Quiet r
      → Q w
      → let (r', w') = attend {0, 0, 0} {S = Wire} r (λ _. pure tt) (λ _. pure tt) w in
        (r' ≡ ok tt) × Q w'
  swallowed (ok a) w c h = (refl, h)
  swallowed (err e) w c h = (refl, h)
  swallowed (panic t) w c h = absurd c

  -- An error that is only noted.
  swallow :
      {P : Wire → Type 0} {m : Act Wire (Unit {0})}
      → Runs P m Q
      → Passes P (catch m (λ _. pure tt) (λ _. pure tt)) Q
  unfolding catch
  swallow {m} km = record { pass = λ w h. let (c, q) = km.run w h in swallowed (m w).0 (m w).1 c q }

module _ {Q R : Wire → Type 0} {k : Act Wire (Unit {0})} where
  resumed :
      Passes Q k R
      → (r : Outcome (Unit {0})) (w : Wire) → r ≡ ok tt
      → Q w
      → ((resume r (λ _. k) w).0 ≡ ok tt) × R (resume r (λ _. k) w).1
  resumed pk (ok a) w e h = pk.pass w h
  resumed pk (err x) w e h = cc
  resumed pk (panic t) w e h = cc

  then_pass :
      {P : Wire → Type 0} {m : Act Wire (Unit {0})}
      → Passes P m Q
      → Passes Q k R
      → Passes P (m >> k) R
  unfolding ◌>>=◌
  then_pass {m} pm pk = record {
    pass = λ w h. let (e, q) = pm.pass w h in resumed pk (m w).0 (m w).1 e q;
  }

-- what a webhook is sent
abbrev pub post : WebhookConfig → Json → HookEvent
post config body = posted config.url body (bearer config.auth_token) config.timeout_secs

-- What holds of a network still holds when it has answered and the log has grown.
record Grows (P : Wire → Type 0) : Type 0 where
  grow :
      (w : Wire) (rest : List (Answer ℕ)) (e : HookEvent)
      → P w
      → P (record { answers = rest; log = e ∷ w.log })

record Logged (e : HookEvent) (w : Wire) : Type 0 where
  inside : Memᴰ e w.log

Logged-Grows : (e : HookEvent) → Grows (Logged e)
Logged-Grows e = record { grow = λ w rest x h. record { inside = Memᴰ.tail h.inside } }

Anything-Grows : Grows Anything
Anything-Grows = record { grow = λ w rest x h. tt }

module _ {P : Wire → Type 0} (g : Grows P) where
  paused : (secs : ℕ) (m : Act Wire (Unit {0})) → Runs P m P → Runs P (sleep secs >> m) P
  unfolding ◌>>=◌
  paused secs m km = record { run = λ w h. km.run _ (g.grow w w.answers (slept secs) h) }

module _ (status_text : ℕ → String) (config : WebhookConfig) (body : Json) where
  module _ (P : Wire → Type 0) where
    refused :
        (b : Bool) (x : AcmeError) (w : Wire)
        → P w
        → Quiet (refuse_if {S = Wire} b x w).0 × P (refuse_if {S = Wire} b x w).1
    refused true x w h = (tt, h)
    refused false x w h = (tt, h)

    attempted :
        (answers : List (Answer ℕ)) (log : List HookEvent)
        → ((rest : List (Answer ℕ)) → P (record { answers = rest; log = post config body ∷ log }))
        → let (r, w) =
            send_once status_text config body (record { answers = answers; log = log }) in
          Quiet r × P w
    unfolding send_once exchange hook_answer ◌>>=◌
    attempted [] log h = (tt, h [])
    attempted (done s ∷ rest) log h = refused _ _ _ (h rest)
    attempted (fault m ∷ rest) log h = (tt, h rest)

    send_once-keeps : Grows P → Runs P (send_once status_text config body) P
    send_once-keeps g = record {
      run = λ w h. attempted w.answers w.log (λ rest. g.grow w rest (post config body) h);
    }

    send_from-keeps :
        Grows P → (attempt left : ℕ) → Runs P (send_from status_text config body attempt left) P
    unfolding send_from
    send_from-keeps g attempt zero = Runs-pure
    send_from-keeps g attempt (suc left) = catch-Runs _ _ (send_once-keeps g) Runs-pure (λ x.
        Runs-if (eqb attempt config.max_retries) (Runs-fail x)
          (paused g _ _ (send_from-keeps g (suc attempt) left)))

  send_from-posts :
      (n : ℕ)
      → 0 < n
      → Runs Anything (send_from status_text config body 1 n) (Logged (post config body))
  unfolding send_from
  send_from-posts zero pos = absurd (omega (arith, pos))
  send_from-posts (suc left) pos =
      let g = Logged-Grows (post config body) in
      catch-Runs _ _
        (record {
          run = λ w h.
              attempted (Logged (post config body)) w.answers w.log
                (λ rest. record { inside = Memᴰ.head refl });
        })
        Runs-pure
        (λ x.
          Runs-if (eqb 1 config.max_retries) (Runs-fail x)
            (paused g _ _ (send_from-keeps (Logged (post config body)) g 2 left)))

module _ (status_text : ℕ → String) (event : WebhookEvent) where
  abbrev body_of : WebhookConfig → Json
  body_of config = format_event config.format event

  send-keeps :
      {P : Wire → Type 0}
      → Grows P
      → (config : WebhookConfig) → Runs P (send status_text config event) P
  unfolding send
  send-keeps {P} g config =
      Runs-if (not (contains config.events event.event_type)) Runs-pure
        (send_from-keeps status_text config (body_of config) P g 1 config.max_retries)

  handled :
      {P Q : Wire → Type 0} (m : Act Wire (Unit {0})) {n : Act Wire (Unit {0})} (b : Bool)
      → b ≡ true
      → Runs P n Q
      → Runs P (if not b then m else n) Q
  handled m true h kn = kn
  handled m false h kn = cc

  send-posts :
      (config : WebhookConfig)
      → contains config.events event.event_type ≡ true
      → 0 < config.max_retries
      → Runs Anything (send status_text config event) (Logged (post config (body_of config)))
  unfolding send
  send-posts config h pos =
      handled _ (contains config.events event.event_type) h
        (send_from-posts status_text config (body_of config) config.max_retries pos)

  send_event-keeps :
      {P : Wire → Type 0}
      → Grows P
      → (webhooks : List WebhookConfig) → Passes P (send_event status_text webhooks event) P
  unfolding send_event
  send_event-keeps g [] = record { pass = λ w h. (refl, h) }
  send_event-keeps g (x ∷ xs) = then_pass (swallow _ (send-keeps g x)) (send_event-keeps g xs)

  module _ (config : WebhookConfig) (h : contains config.events event.event_type ≡ true)
      (pos : 0 < config.max_retries) where
    reached :
        (webhooks : List WebhookConfig)
        → Memᴰ config webhooks
        → Passes Anything
            (send_event status_text webhooks event)
            (Logged (post config (body_of config)))
    unfolding send_event
    reached [] m = elim m [ ]
    reached (x ∷ xs) (Memᴰ.head e) =
        then_pass
          (swallow _ (
            subst
              (λ c.
                Runs Anything (send status_text c event) (Logged (post config (body_of config))))
              e (send-posts config h pos)))
          (send_event-keeps (Logged-Grows _) xs)
    reached (x ∷ xs) (Memᴰ.tail m) =
        then_pass (swallow _ (send-keeps Anything-Grows x)) (reached xs m)

  -- The webhooks that handle the event and are allowed an attempt.
  abbrev pub handlers : List WebhookConfig → List WebhookConfig
  handlers [] = []
  handlers (x ∷ xs) =
      let rest = handlers xs in
      if contains x.events event.event_type && ltb 0 x.max_retries then x ∷ rest else rest

  each_handler :
      (P : WebhookConfig → Type 0) (webhooks : List WebhookConfig)
      → ((config : WebhookConfig)
          → Memᴰ config webhooks
          → contains config.events event.event_type ≡ true
          → 0 < config.max_retries
          → P config)
      → All P (handlers webhooks)
  each_handler P [] give = tt
  each_handler P (x ∷ xs) give =
      let rest = each_handler P xs (λ c m. give c (Memᴰ.tail m)) in
      one (contains x.events event.event_type) (ltb 0 x.max_retries)
        (λ h k. give x (Memᴰ.head refl) h (ltb→lt 0 x.max_retries k)) rest
    where
      one :
          (b c : Bool)
          → (b ≡ true → c ≡ true → P x)
          → All P (handlers xs)
          → All P (if b && c then x ∷ handlers xs else handlers xs)
      one true true here rest = (here refl refl, rest)
      one true false here rest = rest
      one false c here rest = rest

  -- Whatever the webhooks are and answer, `send_event` returns without an error, and each webhook that
  -- handles the event and is allowed an attempt has been posted it.
  pub send_event-posts :
      (webhooks : List WebhookConfig) (w : Wire)
      → ((send_event status_text webhooks event w).0 ≡ ok tt)
        × All
            (λ config.
              Memᴰ
                (post config (format_event config.format event))
                (send_event status_text webhooks event w).1.log)
            (handlers webhooks)
  send_event-posts webhooks w = (
    ((send_event-keeps Anything-Grows webhooks).pass w tt).0,
    each_handler _ webhooks
        (λ config m h pos. ((reached config h pos webhooks m).pass w tt).1.inside),
  )
