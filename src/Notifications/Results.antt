-- ===== src/Notifications/Results.antt =====
-- What the webhooks of src/notifications/mod.rs are sent, and for how long a failing one is tried.
use acmex.Base.{
  ℕ, zero, suc, ◌+◌, ◌-◌, ◌^◌, ◌%◌, ◌≤◌, ◌<◌, ◌≡◌, refl, ap, sym, ◌∙◌, not, String, Bool, true,
  false, eqb, List, [], ◌∷◌, if◌then◌else◌, arith,
}
use native.Mathlib.Nat.{mod-eq_of_lt, pow-le-pow_right, two-pow-succ}
use acmex.Act.{
  Answer, done, fault, Outcome, Act, ok, catch, attend, pure, fail, refuse_if, ◌>>=◌, ◌>>◌,
}
use acmex.Error.{AcmeError}
use acmex.Net.{is_success, no_reply}
use acmex.Net.Value.{Json}
use acmex.Notifications.Event.{WebhookEvent, WebhookConfig, contains, format_event}
use acmex.Notifications.Send.{
  HookEvent, bearer, sleep, posted, slept, Wire, hook_answer, exchange, send_once, send_from, send,
}

-- the requests in a log, and the seconds slept
abbrev pub posts : List HookEvent → ℕ
posts [] = 0
posts (posted _ _ _ _ ∷ log) = suc (posts log)
posts (slept _ ∷ log) = posts log

abbrev pub waits : List HookEvent → ℕ
waits [] = 0
waits (posted _ _ _ _ ∷ log) = waits log
waits (slept secs ∷ log) = secs + waits log

abbrev pub accepted : Answer ℕ → Bool
accepted (done status) = is_success status
accepted (fault _) = false

-- How many of the next answers are used up, of so many attempts, to the first success; and whether
-- there is one. A network that answers no more fails.
abbrev pub tries : ℕ → List (Answer ℕ) → ℕ
tries zero answers = 0
tries (suc n) [] = suc n
tries (suc n) (a ∷ answers) = suc (let rest = tries n answers in if accepted a then 0 else rest)

abbrev pub delivered : ℕ → List (Answer ℕ) → Bool
delivered zero answers = false
delivered (suc n) [] = false
delivered (suc n) (a ∷ answers) =
    let rest = delivered n answers in if accepted a then true else rest

abbrev pub succeeded : {A : Type 0} → Outcome A → Bool
succeeded (ok _) = true
succeeded _ = false

record Tally (b left : ℕ) (before : Wire) (out : Outcome (Unit {0}) × Wire) : Type 0 where
  sent : posts out.1.log ≡ tries left before.answers + posts before.log
  ended : succeeded out.0 ≡ delivered left before.answers
  waited : waits out.1.log + 2 ^ b ≡ 2 ^ (b + (tries left before.answers - 1)) + waits before.log

tried : (n : ℕ) (answers : List (Answer ℕ)) → 0 < tries (suc n) answers
tried n [] = omega arith
tried n (a ∷ answers) = omega arith

wrapped : (b : ℕ) → b < 64 → 2 ^ b % 2 ^ 64 ≡ 2 ^ b
wrapped b h =
    mod-eq_of_lt
      (omega (arith, pow-le-pow_right {n = 2} (omega arith) {i = b} {j = 63} (omega arith)))

same_power : (m n : ℕ) → m ≡ n → 2 ^ m ≡ 2 ^ n
same_power m n h = ap (λ k. 2 ^ k) h

-- The sleeps up to now are 2^b - 1 seconds, so the one that follows doubles them.
doubled :
    (b t t' x y : ℕ)
    → b < 64
    → t ≡ suc t'
    → 0 < t'
    → x + 2 ^ suc b ≡ 2 ^ (suc b + (t' - 1)) + (2 ^ (suc b - 1) % 2 ^ 64 + y)
    → x + 2 ^ b ≡ 2 ^ (b + (t - 1)) + y
doubled b t t' x y hb ht pos h = omega (
  arith,
  h,
  wrapped (suc b - 1) (omega (arith, hb)),
  same_power (suc b - 1) b (omega arith),
  two-pow-succ b,
  same_power (b + (t - 1)) (suc b + (t' - 1)) (omega (arith, ht, pos)),
)

module _ {b left : ℕ} {before w : Wire} (m n : Act Wire (Unit {0})) where
  first_branch :
      (c : Bool)
      → c ≡ true
      → Tally b left before (m w)
      → Tally b left before ((if c then m else n) w)
  first_branch true h t = t
  first_branch false h t = cc

  second_branch :
      (c : Bool)
      → c ≡ false
      → Tally b left before (n w)
      → Tally b left before ((if c then m else n) w)
  second_branch true h t = cc
  second_branch false h t = t

module _ (status_text : ℕ → String) (config : WebhookConfig) (body : Json) where
  abbrev run : ℕ → ℕ → List (Answer ℕ) → List HookEvent → Outcome (Unit {0}) × Wire
  run b left answers log =
      send_from status_text config body (suc b) (suc left) (record { answers = answers; log = log })

  abbrev post : HookEvent
  post = posted config.url body (bearer config.auth_token) config.timeout_secs

  -- what is known of the attempts that follow a pause, if there are any
  abbrev Next : ℕ → ℕ → List (Answer ℕ) → List HookEvent → Type 0
  Next b zero rest log = Unit
  Next b (suc left) rest log =
      let log' = slept (2 ^ (suc b - 1) % 2 ^ 64) ∷ log in
      Tally (suc b) (suc left) (record { answers = rest; log = log' }) (run (suc b) left rest log')

  -- One attempt, which succeeded or not.
  one_attempt :
      (c : Bool) (e : AcmeError) (b left : ℕ) (answers rest : List (Answer ℕ))
      (log : List HookEvent)
      → tries (suc left) answers ≡ suc (if c then 0 else tries left rest)
      → delivered (suc left) answers ≡ (if c then true else delivered left rest)
      → b + suc left ≡ config.max_retries
      → b + left < 64
      → Next b left rest (post ∷ log)
      → let (r, w') =
          refuse_if {S = Wire} (not c) e (record { answers = rest; log = post ∷ log }) in
        Tally b
          (suc left)
          (record { answers = answers; log = log })
          (attend r
            (λ _. pure tt)
            (λ e'.
              if eqb (suc b) config.max_retries
              then fail e'
              else sleep (2 ^ (suc b - 1) % 2 ^ 64)
                >> send_from status_text config body (suc (suc b)) left)
            w')
  unfolding send_from ◌>>=◌
  one_attempt true e b left answers rest log ht hd h k next = record {
    sent = omega (arith, ht);
    ended = sym hd;
    waited = omega (arith, same_power (b + (tries (suc left) answers - 1)) b (omega (arith, ht)));
  }
  one_attempt false e b zero answers rest log ht hd h k next =
      first_branch _ _ (eqb (suc b) config.max_retries) (ground (arith, h)) (record {
        sent = omega (arith, ht);
        ended = sym hd;
        waited = omega (arith, same_power (b + (tries 1 answers - 1)) b (omega (arith, ht)));
      })
  one_attempt false e b (suc left) answers rest log ht hd h k next =
      second_branch _ _ (eqb (suc b) config.max_retries) (ground (arith, h)) (record {
        sent = omega (arith, ht, next.sent);
        ended = next.ended ∙ sym hd;
        waited =
            doubled b _ (tries (suc left) rest) _ _ (omega (arith, k)) ht (tried left rest)
              next.waited;
      })

  tries-nil : (n : ℕ) → tries n [] ≡ n
  tries-nil zero = refl
  tries-nil (suc n) = refl

  delivered-nil : (n : ℕ) → delivered n [] ≡ false
  delivered-nil zero = refl
  delivered-nil (suc n) = refl

  attempted :
      (b left : ℕ) (answers : List (Answer ℕ)) (log : List HookEvent)
      → b + suc left ≡ config.max_retries
      → b + left < 64
      → ((rest : List (Answer ℕ)) → Next b left rest (post ∷ log))
      → Tally b (suc left) (record { answers = answers; log = log }) (run b left answers log)
  unfolding send_from send_once exchange hook_answer catch ◌>>=◌
  attempted b left [] log h k next =
      one_attempt false (AcmeError.transport no_reply) b left [] [] log
        (ap suc (sym (tries-nil left))) (sym (delivered-nil left)) h k (next [])
  attempted b left (done s ∷ rest) log h k next =
      one_attempt (is_success s) _ b left (done s ∷ rest) rest log refl refl h k (next rest)
  attempted b left (fault s ∷ rest) log h k next =
      one_attempt false (AcmeError.transport s) b left (fault s ∷ rest) rest log refl refl h k
        (next rest)

  send_from-Tally :
      (b left : ℕ) (answers : List (Answer ℕ)) (log : List HookEvent)
      → b + suc left ≡ config.max_retries
      → b + left < 64
      → Tally b (suc left) (record { answers = answers; log = log }) (run b left answers log)
  send_from-Tally b zero answers log h k = attempted b zero answers log h k (λ rest. tt)
  send_from-Tally b (suc left) answers log h k = attempted b (suc left) answers log h k (λ rest.
      send_from-Tally (suc b) left rest (slept (2 ^ (suc b - 1) % 2 ^ 64) ∷ post ∷ log)
        (omega (arith, h)) (omega (arith, k)))

  abbrev Tallied : ℕ → Wire → Outcome (Unit {0}) × Wire → Type 0
  Tallied n w out =
      let k = tries n w.answers in
      (posts out.1.log ≡ k + posts w.log)
      × (succeeded out.0 ≡ delivered n w.answers)
      × (waits out.1.log + 1 ≡ 2 ^ (k - 1) + waits w.log)

  tallied :
      (handled : Bool) (n : ℕ) (w : Wire)
      → handled ≡ true
      → n ≡ config.max_retries
      → 0 < n
      → n ≤ 64
      → Tallied n w ((if not handled then pure tt else send_from status_text config body 1 n) w)
  tallied false n w h hn pos small = cc
  tallied true zero w h hn pos small = absurd (omega (arith, pos))
  tallied true (suc n) w h hn pos small =
      let t = send_from-Tally 0 n w.answers w.log (omega (arith, hn)) (omega (arith, small)) in
      (
        t.sent,
        t.ended,
        omega (
          arith,
          t.waited,
          same_power (0 + (tries (suc n) w.answers - 1)) (tries (suc n) w.answers - 1)
              (omega arith),
        ),
      )

module _ (status_text : ℕ → String) where
  -- Where the settings allow one attempt at least and 64 at most, an event that a webhook handles is
  -- posted until an answer is a success or as many attempts as they allow have failed, and not once more; the result is a success exactly
  -- where one of these answers is; and the sleeps between k attempts, of 1, 2, 4, .. seconds, come to
  -- 2^(k - 1) - 1 seconds.
  pub send-tries :
      (config : WebhookConfig) (event : WebhookEvent) (w : Wire)
      → contains config.events event.event_type ≡ true
      → 0 < config.max_retries
      → config.max_retries ≤ 64
      → let k = tries config.max_retries w.answers in
        let (r, w') = send status_text config event w in
        (posts w'.log ≡ k + posts w.log)
        × (succeeded r ≡ delivered config.max_retries w.answers)
        × (waits w'.log + 1 ≡ 2 ^ (k - 1) + waits w.log)
  unfolding send
  send-tries config event w h pos small =
      tallied status_text config (format_event config.format event)
        (contains config.events event.event_type) config.max_retries w h refl pos small
