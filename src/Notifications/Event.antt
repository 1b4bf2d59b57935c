-- ===== src/Notifications/Event.antt =====
-- src/notifications/mod.rs: the events, the webhooks' settings, and the bodies that are sent.
use acmex.Base.{ℕ, String, ◌<>◌, Bool, true, false, ◌||◌, eqb, Option, none, some, List, [], ◌∷◌}
use acmex.Net.Value.{Json, null, num, str, bool, arr, obj, nil, cons, end, field, strs}

pub data EventType : Type 0 where
  renewal_started renewal_success renewal_failed renewal_skipped : EventType
  account_registered account_updated : EventType
  challenge_created challenge_validated challenge_failed : EventType
  certificate_obtained certificate_deployed certificate_expired : EventType
  deployment_failed : EventType

pub record WebhookEvent : Type 0 where
  pub event_type : EventType
  pub timestamp : String
  pub domains : List String
  pub subject : String
  pub message : String
  pub error : Option String
  pub duration_secs : Option ℕ

-- The time is the clock's, as it is written.
unfoldable pub new : String → EventType → List String → String → String → WebhookEvent
new now event_type domains subject message = record {
  event_type = event_type;
  timestamp = now;
  domains = domains;
  subject = subject;
  message = message;
  error = none;
  duration_secs = none;
}

unfoldable pub with_error : WebhookEvent → String → WebhookEvent
with_error event e = record event { error = some e }

unfoldable pub with_duration : WebhookEvent → ℕ → WebhookEvent
with_duration event secs = record event { duration_secs = some secs }

pub data WebhookFormat : Type 0 where
  json slack discord custom : WebhookFormat

pub record WebhookConfig : Type 0 where
  pub name : String
  pub url : String
  pub events : List EventType
  pub format : WebhookFormat
  pub auth_token : Option String
  pub timeout_secs : ℕ
  pub max_retries : ℕ

-- `#[serde(rename_all = "snake_case")]`
unfoldable pub wire_name : EventType → String
wire_name EventType.renewal_started = "renewal_started"
wire_name EventType.renewal_success = "renewal_success"
wire_name EventType.renewal_failed = "renewal_failed"
wire_name EventType.renewal_skipped = "renewal_skipped"
wire_name EventType.account_registered = "account_registered"
wire_name EventType.account_updated = "account_updated"
wire_name EventType.challenge_created = "challenge_created"
wire_name EventType.challenge_validated = "challenge_validated"
wire_name EventType.challenge_failed = "challenge_failed"
wire_name EventType.certificate_obtained = "certificate_obtained"
wire_name EventType.certificate_deployed = "certificate_deployed"
wire_name EventType.certificate_expired = "certificate_expired"
wire_name EventType.deployment_failed = "deployment_failed"

-- `{:?}`
unfoldable pub debug_name : EventType → String
debug_name EventType.renewal_started = "RenewalStarted"
debug_name EventType.renewal_success = "RenewalSuccess"
debug_name EventType.renewal_failed = "RenewalFailed"
debug_name EventType.renewal_skipped = "RenewalSkipped"
debug_name EventType.account_registered = "AccountRegistered"
debug_name EventType.account_updated = "AccountUpdated"
debug_name EventType.challenge_created = "ChallengeCreated"
debug_name EventType.challenge_validated = "ChallengeValidated"
debug_name EventType.challenge_failed = "ChallengeFailed"
debug_name EventType.certificate_obtained = "CertificateObtained"
debug_name EventType.certificate_deployed = "CertificateDeployed"
debug_name EventType.certificate_expired = "CertificateExpired"
debug_name EventType.deployment_failed = "DeploymentFailed"

-- a derived `==`, by the constructors' tags
tag : EventType → ℕ
tag EventType.renewal_started = 0
tag EventType.renewal_success = 1
tag EventType.renewal_failed = 2
tag EventType.renewal_skipped = 3
tag EventType.account_registered = 4
tag EventType.account_updated = 5
tag EventType.challenge_created = 6
tag EventType.challenge_validated = 7
tag EventType.challenge_failed = 8
tag EventType.certificate_obtained = 9
tag EventType.certificate_deployed = 10
tag EventType.certificate_expired = 11
tag EventType.deployment_failed = 12

-- `self.config.events.contains(&event_type)`
unfoldable pub contains : List EventType → EventType → Bool
unfolding tag
contains [] t = false
contains (e ∷ es) t = eqb (tag e) (tag t) || contains es t

-- `join(", ")`
unfoldable pub join : List String → String
join [] = ""
join (x ∷ []) = x
join (x ∷ y ∷ ys) = x <> ", " <> join (y ∷ ys)

abbrev text_or_null : Option String → Json
text_or_null none = null
text_or_null (some s) = str s

abbrev number_or_null : Option ℕ → Json
number_or_null none = null
number_or_null (some n) = num n

unfoldable pub format_json : WebhookEvent → Json
unfolding wire_name
format_json event = obj (
    field "event_type" (str (wire_name event.event_type)) (
      field "timestamp" (str event.timestamp) (
        field "domains" (arr (strs event.domains)) (
          field "subject" (str event.subject) (
            field "message" (str event.message) (
              field "error" (text_or_null event.error)
                (field "duration_secs" (number_or_null event.duration_secs) end)))))))

unfoldable pub slack_color : EventType → String
slack_color EventType.renewal_success = "good"
slack_color EventType.certificate_obtained = "good"
slack_color EventType.renewal_failed = "danger"
slack_color EventType.challenge_failed = "danger"
slack_color EventType.deployment_failed = "danger"
slack_color _ = "#0099cc"

unfoldable pub discord_color : EventType → ℕ
discord_color EventType.renewal_success = 2664261
discord_color EventType.certificate_obtained = 2664261
discord_color EventType.renewal_failed = 14431557
discord_color EventType.challenge_failed = 14431557
discord_color EventType.deployment_failed = 14431557
discord_color _ = 39372

-- a titled field, under the keys of either service
abbrev titled : String → String → Bool → String → String → Json
titled title_key short_key short title value =
    obj (field title_key (str title) (field "value" (str value) (field short_key (bool short) end)))

abbrev titles : String → String → WebhookEvent → Json
titles title_key short_key event = arr (
    cons (titled title_key short_key true "Event Type" (debug_name event.event_type)) (
      cons (titled title_key short_key false "Domains" (join event.domains))
        (cons (titled title_key short_key true "Timestamp" event.timestamp) nil)))

unfoldable pub format_slack : WebhookEvent → Json
unfolding debug_name join slack_color
format_slack event = obj (
    field "attachments"
      (arr (
        cons
          (obj (
            field "color" (str (slack_color event.event_type)) (
              field "title" (str event.subject) (
                field "text" (str event.message)
                  (field "fields" (titles "title" "short" event) end)))))
          nil))
      end)

unfoldable pub format_discord : WebhookEvent → Json
unfolding debug_name join discord_color
format_discord event = obj (
    field "embeds"
      (arr (
        cons
          (obj (
            field "title" (str event.subject) (
              field "description" (str event.message) (
                field "color" (num (discord_color event.event_type))
                  (field "fields" (titles "name" "inline" event) end)))))
          nil))
      end)

-- The custom format is the derived serialization, whose fields are those of `format_json`.
unfoldable pub format_event : WebhookFormat → WebhookEvent → Json
unfolding format_json format_slack format_discord
format_event json event = format_json event
format_event slack event = format_slack event
format_event discord event = format_discord event
format_event custom event = format_json event
