-- ===== src/Types.antt =====
-- src/types.rs: identifiers, contacts, revocation reasons and the status words of the protocol.
pub mod RoundTrip
use acmex.Base.{ℕ, String, ◌<>◌, ◌==◌, Option, none, some, if◌then◌else◌}

pub record Identifier : Type 0 where
  pub id_type : String
  pub value : String

unfoldable pub dns : String → Identifier
dns domain = record { id_type = "dns"; value = domain }

unfoldable pub ip : String → Identifier
ip address = record { id_type = "ip"; value = address }

pub data RevocationReason : Type 0 where
  unspecified key_compromise ca_compromise affiliation_changed superseded : RevocationReason
  cessation_of_operation certificate_hold remove_from_crl : RevocationReason
  privilege_withdrawn aa_compromise : RevocationReason

unfoldable pub as_u8 : RevocationReason → ℕ
as_u8 unspecified = 0
as_u8 key_compromise = 1
as_u8 ca_compromise = 2
as_u8 affiliation_changed = 3
as_u8 superseded = 4
as_u8 cessation_of_operation = 5
as_u8 certificate_hold = 6
as_u8 remove_from_crl = 8
as_u8 privilege_withdrawn = 9
as_u8 aa_compromise = 10

pub record Contact : Type 0 where
  pub email : Option String
  pub phone : Option String
  pub url : Option String

unfoldable pub contact_email : String → Contact
contact_email s = record { email = some s; phone = none; url = none }

unfoldable pub contact_phone : String → Contact
contact_phone s = record { email = none; phone = some s; url = none }

unfoldable pub contact_url : String → Contact
contact_url s = record { email = none; phone = none; url = some s }

-- the chain of `if let`
uri_of : Option String → Option String → Option String → String
uri_of (some email) _ _ = "mailto:" <> email
uri_of none (some phone) _ = "tel:" <> phone
uri_of none none (some url) = url
uri_of none none none = ""

unfoldable pub to_uri : Contact → String
unfolding uri_of
to_uri c = uri_of c.email c.phone c.url

pub data ChallengeType : Type 0 where
  http_01 dns_01 tls_alpn_01 : ChallengeType

pub data OrderStatus : Type 0 where
  pending ready processing valid invalid expired deactivated : OrderStatus

pub data AuthorizationStatus : Type 0 where
  pending valid invalid deactivated expired : AuthorizationStatus

-- The `Ok` side of `from_str`; its error text is dropped by every caller.
unfoldable pub challenge_type_from_str : String → Option ChallengeType
challenge_type_from_str s =
    if s == "http-01"
    then some http_01
    else if s == "dns-01"
    then some dns_01
    else if s == "tls-alpn-01"
    then some tls_alpn_01
    else none

unfoldable pub challenge_type_as_str : ChallengeType → String
challenge_type_as_str http_01 = "http-01"
challenge_type_as_str dns_01 = "dns-01"
challenge_type_as_str tls_alpn_01 = "tls-alpn-01"

unfoldable pub order_status_from_str : String → Option OrderStatus
order_status_from_str s =
    if s == "pending"
    then some OrderStatus.pending
    else if s == "ready"
    then some OrderStatus.ready
    else if s == "processing"
    then some OrderStatus.processing
    else if s == "valid"
    then some OrderStatus.valid
    else if s == "invalid"
    then some OrderStatus.invalid
    else if s == "expired"
    then some OrderStatus.expired
    else if s == "deactivated"
    then some OrderStatus.deactivated
    else none

unfoldable pub order_status_as_str : OrderStatus → String
order_status_as_str OrderStatus.pending = "pending"
order_status_as_str OrderStatus.ready = "ready"
order_status_as_str OrderStatus.processing = "processing"
order_status_as_str OrderStatus.valid = "valid"
order_status_as_str OrderStatus.invalid = "invalid"
order_status_as_str OrderStatus.expired = "expired"
order_status_as_str OrderStatus.deactivated = "deactivated"

unfoldable pub authorization_status_from_str : String → Option AuthorizationStatus
authorization_status_from_str s =
    if s == "pending"
    then some AuthorizationStatus.pending
    else if s == "valid"
    then some AuthorizationStatus.valid
    else if s == "invalid"
    then some AuthorizationStatus.invalid
    else if s == "deactivated"
    then some AuthorizationStatus.deactivated
    else if s == "expired"
    then some AuthorizationStatus.expired
    else none

unfoldable pub authorization_status_as_str : AuthorizationStatus → String
authorization_status_as_str AuthorizationStatus.pending = "pending"
authorization_status_as_str AuthorizationStatus.valid = "valid"
authorization_status_as_str AuthorizationStatus.invalid = "invalid"
authorization_status_as_str AuthorizationStatus.deactivated = "deactivated"
authorization_status_as_str AuthorizationStatus.expired = "expired"
