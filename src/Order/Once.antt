-- ===== src/Order/Once.antt =====
-- The operations of src/order/ forget nothing that the log has shown.
use acmex.Base.{ℕ, zero, suc, String, List}
use acmex.Act.Triple.{Keeps, Keeps-bind, keeps_rules}
use acmex.Net.{Event, Io, sleep}
use acmex.Platform.{Platform}
use acmex.Protocol.Request.{Manager}
use acmex.Protocol.Once.{Once, Earlier-cons, signed_post-Once, get-Once}
use acmex.Order.Objects.{Order, NewOrderRequest}
use acmex.Order.Manager.{
  create_order, get_order, get_authorization, respond_to_challenge, judge, poll_from, poll_order,
  finalize_order, download_certificate,
}

pub sleep-Once : (P : List Event → Type 0) (n : ℕ) → Keeps (Once P) (sleep n)
sleep-Once P n = record { run = λ w h. record { earlier = Earlier-cons _ h.earlier } }

pub ruleset once_rules = (keeps_rules, signed_post-Once, get-Once, sleep-Once)

module _ (P : List Event → Type 0) {Key : Type 0} (p : Platform Key) (m : Manager Key)
    (id : String) where
  pub create_order-Once : (r : NewOrderRequest) → Keeps (Once P) (create_order p m id r)
  unfolding create_order
  create_order-Once r = search once_rules depth 12

  get_order-Once : (url : String) → Keeps (Once P) (get_order p m id url)
  unfolding get_order
  get_order-Once url = search once_rules

  pub get_authorization-Once : (url : String) → Keeps (Once P) (get_authorization p m id url)
  unfolding get_authorization
  get_authorization-Once url = search once_rules

  pub respond_to_challenge-Once : (url : String) → Keeps (Once P) (respond_to_challenge p m id url)
  unfolding respond_to_challenge
  respond_to_challenge-Once url = search once_rules

  judge-Once :
      (o : Order) (interval : ℕ) (next : Io Order)
      → Keeps (Once P) next
      → Keeps (Once P) (judge p m id o interval next)
  unfolding judge
  judge-Once o interval next k = search once_rules

  poll_from-Once :
      (url : String) (limit interval left : ℕ)
      → Keeps (Once P) (poll_from p m id url limit interval left)
  unfolding poll_from
  poll_from-Once url limit interval zero = search once_rules
  poll_from-Once url limit interval (suc left) =
      Keeps-bind (get_order-Once url)
        (λ o. judge-Once o interval _ (poll_from-Once url limit interval left))

  pub poll_order-Once : (url : String) (n i : ℕ) → Keeps (Once P) (poll_order p m id url n i)
  unfolding poll_order
  poll_order-Once url n i = poll_from-Once url n i n

  pub finalize_order-Once :
      (url : String) (csr : List ℕ) → Keeps (Once P) (finalize_order p m id url csr)
  unfolding finalize_order
  finalize_order-Once url csr = search once_rules

  pub download_certificate-Once : (url : String) → Keeps (Once P) (download_certificate p m id url)
  unfolding download_certificate
  download_certificate-Once url = search once_rules
