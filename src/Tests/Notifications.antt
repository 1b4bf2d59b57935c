-- ===== src/Tests/Notifications.antt =====
-- Two webhooks: one whose first answer is an error of the server, and one that is not answered.
use acmex.Base.{Bool, ℕ, ◌+◌, ◌-◌, ◌^◌, ◌≡◌, refl, String, none, some, [], ◌∷◌, All, arith}
use acmex.Act.{done, ok}
use acmex.Notifications.Event.{
  WebhookEvent, WebhookConfig, renewal_success, renewal_failed, json, slack, contains, format_event,
}
use acmex.Notifications.Send.{Wire, send, send_event}
use acmex.Notifications.Results.{posts, waits, tries, delivered, succeeded, send-tries}
use acmex.Notifications.Reach.{post, handlers, send_event-posts}
use mathlib.Core.List.{Memᴰ}

abbrev chat : WebhookConfig
chat = record {
  name = "chat";
  url = "/chat";
  events = renewal_failed ∷ renewal_success ∷ [];
  format = slack;
  auth_token = some "secret";
  timeout_secs = 30;
  max_retries = 3;
}

abbrev log_hook : WebhookConfig
log_hook = record chat { name = "log"; url = "/log"; format = json; auth_token = none }

abbrev renewed : WebhookEvent
renewed = record {
  event_type = renewal_success;
  timestamp = "2025-01-01T00:00:00Z";
  domains = "a.org" ∷ "b.org" ∷ [];
  subject = "Renewal";
  message = "renewed";
  error = none;
  duration_secs = some 4;
}

abbrev wire : Wire
wire = record { answers = done 503 ∷ done 204 ∷ []; log = [] }

abbrev shown : ℕ → String
shown n = "status"

handles : contains (WebhookConfig.events chat) (WebhookEvent.event_type renewed) ≡ Bool.true
unfolding contains
handles = refl

send-tries_example :
    let k = tries 3 (Wire.answers wire) in
    let (r, w') = send shown chat renewed wire in
    (posts (Wire.log w') ≡ k + posts [])
    × (succeeded r ≡ delivered 3 (Wire.answers wire))
    × (waits (Wire.log w') + 1 ≡ 2 ^ (k - 1) + waits [])
send-tries_example = send-tries shown chat renewed wire handles (omega arith) (omega arith)

-- The first webhook uses up both answers, and the second is posted all the same.
send_event-posts_example :
    let out = send_event shown (chat ∷ log_hook ∷ []) renewed wire in
    (out.0 ≡ ok tt)
    × All
        (λ config. Memᴰ (post config (format_event config.format renewed)) (Wire.log out.1))
        (handlers shown renewed (chat ∷ log_hook ∷ []))
send_event-posts_example = send_event-posts shown renewed (chat ∷ log_hook ∷ []) wire

both_handle : handlers shown renewed (chat ∷ log_hook ∷ []) ≡ chat ∷ log_hook ∷ []
unfolding contains
both_handle = refl
