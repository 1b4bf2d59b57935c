-- ===== src/Order/Results.antt =====
-- What the operations of src/order/manager.rs have learnt from the server when they return.
use acmex.Base.{
  ℕ, zero, suc, String, ◌≡◌, ◌==◌, ◌||◌, refl, Bool, true, false, not, if◌then◌else◌, List, some,
}
use acmex.Error.{AcmeError}
use acmex.Act.{Answer, ok, done, pure, fail, or_raise, refuse_if, ◌>>◌}
use acmex.Act.Triple.{
  Triple, Anything, returned, bind_rule, ok_or_rule, refused_rule, raised_rule, any_rule,
}
use acmex.Net.{World, Event, Response, Io, header, is_success, json_body}
use acmex.Net.Value.{Json, obj, str, field, end}
use acmex.Platform.{Platform}
use acmex.Protocol.Request.{Manager, by_kid, Signer}
use acmex.Protocol.Replied.{SignedReply, signed_post-SignedReply}
use acmex.Order.Objects.{Order, NewOrderRequest, request_json}
use acmex.Order.Manager.{
  create_order, get_order, finalize_order, download_certificate, poll_order, poll_from, judge,
}

-- A response of success to the request that the log ends with, as this key signs it, carried this value.
abbrev pub Fetched :
    {Key A : Type 0}
    → Platform Key
    → Key
    → Signer
    → String
    → Json
    → (Answer String → Answer A)
    → A
    → List Event
    → Type 0
Fetched p key signer url payload decode a log =
    (r : Response) × SignedReply p key signer url payload r log
    × (is_success r.status ≡ true)
    × (decode r.body ≡ done a)

pub not-eq-false : (b : Bool) → not b ≡ false → b ≡ true
not-eq-false true e = refl
not-eq-false false e = cc

module _ {Key A : Type 0} (p : Platform Key) (key : Key) (signer : Signer) (url : String)
    (payload : Json) (decode : Answer String → Answer A) where
  -- the status check and the decoding behind a request
  Fetched-tail :
      (r : Response) (refused : AcmeError) (broken : String → AcmeError)
      → Triple
          (λ (w : World). SignedReply p key signer url payload r w.log)
          (refuse_if (not (is_success r.status)) refused >> or_raise (decode r.body) broken)
          (λ a w. Fetched p key signer url payload decode a w.log)
          Anything
  Fetched-tail r refused broken =
      bind_rule
        (refused_rule (λ s h. tt)
          (λ _ w. SignedReply p key signer url payload r w.log × (is_success r.status ≡ true)) _ _
          (λ e w h. (h, not-eq-false _ e)))
        (λ _. raised_rule (λ s h. tt) _ _ _ (λ a e w h. (r, h.0, h.1, e)))

module _ {Key : Type 0} (p : Platform Key) (key : Key) (id : String) where
  abbrev pub is_final : String → Bool
  is_final status = status == "ready" || (status == "valid" || status == "invalid")

  -- A final order, as the last response gave it.
  abbrev pub Polled : String → Order → List Event → Type 0
  Polled url o log =
      (is_final o.status ≡ true)
      × Fetched p key (by_kid id) url (obj end) (json_body p.order_of) o log

  -- What the request that creates an order has learnt: where the order is, and the order.
  abbrev pub Created : NewOrderRequest → String × Order → List Event → Type 0
  Created request created log =
      (new_order_url : String) × (r : Response) × SignedReply p key (by_kid id) new_order_url
        (request_json request) r log
      × (header r "location" ≡ some created.0)
      × (is_success r.status ≡ true)
      × (json_body p.order_of r.body ≡ done created.1)

-- one round of a loop that returns, goes on after an action, or fails
pub judged_rule :
    {A : Type 0} {P : World → Type 0} {Q : A → World → Type 0} (a : A) (wait : Io (Unit {0}))
    {next : Io A} (refused : AcmeError) (final waiting : Bool)
    → (final ≡ true → (w : World) → P w → Q a w)
    → Triple Anything next Q Anything
    → Triple P (if final then pure a else if waiting then wait >> next else fail refused) Q Anything
judged_rule a wait refused true waiting give k = record { run = give refl }
judged_rule a wait refused false true give k = bind_rule (any_rule _) (λ _. k)
judged_rule a wait refused false false give k = record { run = λ w h. tt }

module _ {Key : Type 0} (p : Platform Key) (m : Manager Key) (id : String) where
  pub get_order-Fetched :
      (url : String)
      → Triple Anything
          (get_order p m id url)
          (λ o w. Fetched p m.key (by_kid id) url (obj end) (json_body p.order_of) o w.log)
          Anything
  unfolding get_order
  get_order-Fetched url =
      bind_rule (signed_post-SignedReply p m _ _ _ _)
        (λ r. Fetched-tail p m.key (by_kid id) url (obj end) (json_body p.order_of) r _ _)

  pub download_certificate-Fetched :
      (url : String)
      → Triple Anything
          (download_certificate p m id url)
          (λ pem w. Fetched p m.key (by_kid id) url (obj end) (λ body. body) pem w.log)
          Anything
  unfolding download_certificate
  download_certificate-Fetched url =
      bind_rule (signed_post-SignedReply p m _ _ _ _)
        (λ r. Fetched-tail p m.key (by_kid id) url (obj end) (λ body. body) r _ _)

  judge-Polled :
      (url : String) (o : Order) (interval : ℕ) (next : Io Order)
      → Triple Anything next (λ o w. Polled p m.key id url o w.log) Anything
      → Triple
          (λ (w : World). Fetched p m.key (by_kid id) url (obj end) (json_body p.order_of) o w.log)
          (judge p m id o interval next)
          (λ o w. Polled p m.key id url o w.log)
          Anything
  unfolding judge
  judge-Polled url o interval next k = judged_rule _ _ _ _ _ (λ final w h. (final, h)) k

  poll_from-Polled :
      (url : String) (limit interval left : ℕ)
      → Triple Anything
          (poll_from p m id url limit interval left)
          (λ o w. Polled p m.key id url o w.log)
          Anything
  unfolding poll_from
  poll_from-Polled url limit interval zero = record { run = λ w h. tt }
  poll_from-Polled url limit interval (suc left) =
      bind_rule (get_order-Fetched url)
        (λ o. judge-Polled url o interval _ (poll_from-Polled url limit interval left))

  pub poll_order-Polled :
      (url : String) (attempts interval : ℕ)
      → Triple Anything
          (poll_order p m id url attempts interval)
          (λ o w. Polled p m.key id url o w.log)
          Anything
  unfolding poll_order
  poll_order-Polled url attempts interval = poll_from-Polled url attempts interval attempts

  pub create_order-Created :
      (request : NewOrderRequest)
      → Triple Anything
          (create_order p m id request)
          (λ created w. Created p m.key id request created w.log)
          Anything
  unfolding create_order
  create_order-Created request = bind_rule (any_rule _) (λ d.
      bind_rule (signed_post-SignedReply p m _ _ _ _) (λ r.
        bind_rule
          (ok_or_rule (λ s h. tt)
            (λ u w.
              SignedReply p m.key (by_kid id) d.new_order (request_json request) r w.log
              × (header r "location" ≡ some u))
            _ _ (λ u e w h. (h, e)))
          (λ u.
            bind_rule
              (refused_rule (λ s h. tt)
                (λ _ w.
                  SignedReply p m.key (by_kid id) d.new_order (request_json request) r w.log
                  × (header r "location" ≡ some u)
                  × (is_success r.status ≡ true))
                _ _ (λ e w h. (h.0, h.1, not-eq-false _ e)))
              (λ _.
                bind_rule
                  (raised_rule (λ s h. tt) (λ o w. Created p m.key id request (u, o) w.log) _ _
                    (λ o e w h. (d.new_order, r, h.0, h.1, h.2, e)))
                  (λ o. record { run = λ w h. h })))))

  pub finalize_order-Fetched :
      (url : String) (csr_der : List ℕ)
      → Triple Anything
          (finalize_order p m id url csr_der)
          (λ o w.
            Fetched p m.key
              (by_kid id)
              url
              (obj (field "csr" (str (p.base64url csr_der)) end))
              (json_body p.order_of)
              o
              w.log)
          Anything
  unfolding finalize_order
  finalize_order-Fetched url csr_der =
      bind_rule (signed_post-SignedReply p m _ _ _ _)
        (λ r. Fetched-tail p m.key (by_kid id) url _ (json_body p.order_of) r _ _)

  -- Where polling returns an order, its status is ready, valid or invalid, and it is what the response
  -- of success to the last request decodes to, which was for this order, for this account and signed by its key.
  pub poll_order-returns :
      (url : String) (attempts interval : ℕ) (w w' : World) (o : Order)
      → poll_order p m id url attempts interval w ≡ (ok o, w')
      → (is_final p m.key id o.status ≡ true)
        × Fetched p m.key (by_kid id) url (obj end) (json_body p.order_of) o w'.log
  poll_order-returns url attempts interval w w' o e =
      returned (poll_order-Polled url attempts interval) w tt o w' e
