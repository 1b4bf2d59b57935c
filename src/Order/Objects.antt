-- ===== src/Order/Objects.antt =====
-- src/order/objects.rs: challenges, authorizations, orders and the request for an order.
use acmex.Base.{String, ◌==◌, Bool, true, false, Option, none, some, List, [], ◌∷◌, map, find}
use acmex.Types.{
  Identifier, OrderStatus, AuthorizationStatus, dns, order_status_from_str,
  authorization_status_from_str,
}
use acmex.Net.Value.{Json, Items, nil, cons, str, arr, obj, end, field, optional}

pub record Challenge : Type 0 where
  pub challenge_type : String
  pub url : String
  pub status : String
  pub token : String
  pub key_authorization : Option String
  pub validation : Option String
  pub updated : Option String
  pub error : Option Json

pub record Authorization : Type 0 where
  pub identifier : Identifier
  pub status : String
  pub expires : String
  pub challenges : List Challenge
  pub wildcard : Option Bool
  pub combined_challenges : Option (List Challenge)

unfoldable pub get_challenge : Authorization → String → Option Challenge
get_challenge a kind = find (λ c. Challenge.challenge_type c == kind) a.challenges

unfoldable pub authorization_status_enum : Authorization → Option AuthorizationStatus
authorization_status_enum a = authorization_status_from_str a.status

pub record Order : Type 0 where
  pub status : String
  pub expires : String
  pub identifiers : List Identifier
  pub authorizations : List String
  pub finalize : String
  pub certificate : Option String
  pub combined_authorizations : Option (List Authorization)

unfoldable pub status_enum : Order → Option OrderStatus
unfolding order_status_from_str
status_enum o = order_status_from_str o.status

-- `matches!(.., Some(OrderStatus::Ready))` and its like
is_the : Option OrderStatus → OrderStatus → Bool
is_the (some OrderStatus.ready) OrderStatus.ready = true
is_the (some OrderStatus.valid) OrderStatus.valid = true
is_the (some OrderStatus.pending) OrderStatus.pending = true
is_the _ _ = false

unfoldable pub is_ready : Order → Bool
unfolding status_enum is_the
is_ready o = is_the (status_enum o) OrderStatus.ready

unfoldable pub is_valid : Order → Bool
unfolding status_enum is_the
is_valid o = is_the (status_enum o) OrderStatus.valid

unfoldable pub is_pending : Order → Bool
unfolding status_enum is_the
is_pending o = is_the (status_enum o) OrderStatus.pending

pub record NewOrderRequest : Type 0 where
  pub identifiers : List Identifier
  pub not_before : Option String
  pub not_after : Option String

unfoldable pub new_order_request : List String → NewOrderRequest
new_order_request domains = record {
  identifiers = map dns domains;
  not_before = none;
  not_after = none;
}

unfoldable pub with_not_before : NewOrderRequest → String → NewOrderRequest
with_not_before r t = record r { not_before = some t }

unfoldable pub with_not_after : NewOrderRequest → String → NewOrderRequest
with_not_after r t = record r { not_after = some t }

-- The derived `Serialize`.
identifier_items : List Identifier → Items
identifier_items [] = nil
identifier_items (i ∷ is) =
    cons (obj (field "type" (str i.id_type) (field "value" (str i.value) end)))
      (identifier_items is)

unfoldable pub request_json : NewOrderRequest → Json
unfolding identifier_items
request_json r = obj (
    field "identifiers" (arr (identifier_items r.identifiers))
      (optional "notBefore" r.not_before (optional "notAfter" r.not_after end)))
