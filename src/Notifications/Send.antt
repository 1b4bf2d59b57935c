-- ===== src/Notifications/Send.antt =====
-- src/notifications/mod.rs: sending an event to the webhooks, with retries.
use acmex.Base.{
  ℕ, zero, suc, ◌-◌, ◌^◌, ◌%◌, String, ◌<>◌, eqb, Option, none, some, List, [], ◌∷◌, if◌then◌else◌,
}
use acmex.Error.{AcmeError}
use acmex.Act.{Act, Answer, fault, pure, fail, modify, refuse_if, or_raise, catch, ◌>>=◌, ◌>>◌}
use acmex.Net.{is_success, no_reply}
use acmex.Net.Value.{Json}
use acmex.Notifications.Event.{WebhookEvent, WebhookConfig, contains, format_event}
use acmex.Base.{not}

-- A POST of a body with its authorization header and its timeout in seconds; and a sleep in seconds.
pub data HookEvent : Type 0 where
  posted : String → Json → Option String → ℕ → HookEvent
  slept : ℕ → HookEvent

-- The network: the status of each answer or the text of an error, and the log, newest first.
pub record Wire : Type 0 where
  pub answers : List (Answer ℕ)
  pub log : List HookEvent

unfoldable pub hook_answer : List (Answer ℕ) → HookEvent → Wire → Answer ℕ × Wire
hook_answer [] e w = (fault no_reply, record w { log = e ∷ w.log })
hook_answer (a ∷ rest) e w = (a, record w { answers = rest; log = e ∷ w.log })

-- A network error is displayed as it is.
unfoldable pub exchange : HookEvent → Act Wire ℕ
unfolding hook_answer
exchange e w = let (a, w') = hook_answer w.answers e w in or_raise a AcmeError.transport w'

abbrev pub sleep : ℕ → Act Wire (Unit {0})
sleep secs = modify (λ w. record w { log = slept secs ∷ w.log })

abbrev pub bearer : Option String → Option String
bearer none = none
bearer (some token) = some ("Bearer " <> token)

-- The display of a status is the `http` package's.
module _ (status_text : ℕ → String) where
  unfoldable pub send_once : WebhookConfig → Json → Act Wire (Unit {0})
  unfolding exchange
  send_once config body = do
    status ← exchange (posted config.url body (bearer config.auth_token) config.timeout_secs)
    refuse_if (not (is_success status))
        (AcmeError.transport ("Webhook returned status: " <> status_text status))

  -- The loop `1..=max_retries`, by the attempts left. A `u64` power wraps in a release build.
  unfoldable pub send_from : WebhookConfig → Json → ℕ → ℕ → Act Wire (Unit {0})
  unfolding send_once
  send_from config body attempt zero = pure tt
  send_from config body attempt (suc left) =
      catch (send_once config body) (λ _. pure tt)
        (λ e.
          if eqb attempt config.max_retries
          then fail e
          else sleep (2 ^ (attempt - 1) % 2 ^ 64) >> send_from config body (suc attempt) left)

  unfoldable pub send : WebhookConfig → WebhookEvent → Act Wire (Unit {0})
  unfolding contains format_event send_from
  send config event =
      if not (contains config.events event.event_type)
      then pure tt
      else send_from config (format_event config.format event) 1 config.max_retries

  -- The errors are collected for a warning only.
  unfoldable pub send_event : List WebhookConfig → WebhookEvent → Act Wire (Unit {0})
  unfolding send
  send_event [] event = pure tt
  send_event (webhook ∷ webhooks) event =
      catch (send webhook event) (λ _. pure tt) (λ _. pure tt) >> send_event webhooks event
