-- ===== src/Order/Manager.antt =====
-- src/order/manager.rs: the requests in the life of an order, and the loop that polls it.
use acmex.Base.{ℕ, zero, suc, String, ◌<>◌, ◌==◌, ◌||◌, not, List, if◌then◌else◌}
use acmex.Error.{AcmeError}
use acmex.Act.{pure, fail, ok_or, or_raise, refuse_if, ◌>>=◌, ◌>>◌}
use acmex.Net.{Io, Response, header, is_success, text_or_unknown, json_body, sleep}
use acmex.Net.Value.{str, obj, end, field}
use acmex.Platform.{Platform}
use acmex.Protocol.Directory
use acmex.Protocol.Request.{Manager, by_kid, signed_post}
use acmex.Order.Objects.{Challenge, Authorization, Order, NewOrderRequest, request_json}

module _ {Key : Type 0} (p : Platform Key) (m : Manager Key) (account_id : String) where
  -- `"<what>: HTTP <status>"`
  abbrev http_error : String → Response → String
  http_error what response = what <> ": HTTP " <> p.status_text response.status

  unfoldable pub create_order : NewOrderRequest → Io (String × Order)
  create_order request = do
    directory ← Directory.get p (Manager.directory_url m)
    response ←
        signed_post p m (by_kid account_id) directory.new_order (request_json request)
          "Failed to create order"
    order_url ←
        ok_or (header response "location")
          (AcmeError.order "Missing Location header in order response" "")
    refuse_if (not (is_success response.status)) (
        AcmeError.order (http_error "Failed to create order" response)
          (text_or_unknown response.body))
    order ← or_raise (json_body p.order_of response.body) (AcmeError.order "Failed to parse order")
    pure (order_url, order)

  unfoldable pub get_order : String → Io Order
  get_order order_url = do
    response ← signed_post p m (by_kid account_id) order_url (obj end) "Failed to get order"
    refuse_if (not (is_success response.status))
        (AcmeError.order (http_error "Failed to get order" response) "")
    or_raise (json_body p.order_of response.body) (AcmeError.order "Failed to parse order")

  unfoldable pub get_authorization : String → Io Authorization
  get_authorization auth_url = do
    response ← signed_post p m (by_kid account_id) auth_url (obj end) "Failed to get authorization"
    refuse_if (not (is_success response.status))
        (AcmeError.order (http_error "Failed to get authorization" response) "")
    or_raise (json_body p.authorization_of response.body)
        (AcmeError.order "Failed to parse authorization")

  unfoldable pub respond_to_challenge : String → Io Challenge
  respond_to_challenge challenge_url = do
    response ←
        signed_post p m (by_kid account_id) challenge_url (obj end) "Failed to respond to challenge"
    refuse_if (not (is_success response.status))
        (AcmeError.challenge "unknown" (http_error "Failed to respond to challenge" response))
    or_raise (json_body p.challenge_of response.body)
        (λ e. AcmeError.challenge "unknown" ("Failed to parse challenge: " <> e))

  -- one round of `poll_order`, and what the loop does next
  unfoldable pub judge : Order → ℕ → Io Order → Io Order
  judge order interval next =
      if order.status == "ready" || (order.status == "valid" || order.status == "invalid")
      then pure order
      else if order.status == "pending" || order.status == "processing"
      then sleep interval >> next
      else fail (AcmeError.order ("Unexpected order status: " <> order.status) "")

  -- `for attempt in 0..max_attempts`, by the attempts left
  unfoldable pub poll_from : String → ℕ → ℕ → ℕ → Io Order
  poll_from order_url limit interval zero =
      fail (
        AcmeError.order "Order polling timeout" ("Exceeded " <> p.show_number limit <> " attempts"))
  poll_from order_url limit interval (suc left) = do
    order ← get_order order_url
    judge order interval (poll_from order_url limit interval left)

  unfoldable pub poll_order : String → ℕ → ℕ → Io Order
  unfolding poll_from judge
  poll_order order_url max_attempts interval =
      poll_from order_url max_attempts interval max_attempts

  unfoldable pub finalize_order : String → List ℕ → Io Order
  finalize_order finalize_url csr_der = do
    let payload = obj (field "csr" (str (p.base64url csr_der)) end)
    response ← signed_post p m (by_kid account_id) finalize_url payload "Failed to finalize order"
    refuse_if (not (is_success response.status)) (
        AcmeError.order (http_error "Failed to finalize order" response)
          (text_or_unknown response.body))
    or_raise (json_body p.order_of response.body)
        (AcmeError.order "Failed to parse finalized order")

  unfoldable pub download_certificate : String → Io String
  download_certificate certificate_url = do
    response ←
        signed_post p m (by_kid account_id) certificate_url (obj end)
          "Failed to download certificate"
    refuse_if (not (is_success response.status))
        (AcmeError.certificate (http_error "Failed to download certificate" response))
    or_raise response.body (λ e. AcmeError.certificate ("Failed to read certificate: " <> e))
