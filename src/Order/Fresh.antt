-- ===== src/Order/Fresh.antt =====
-- The operations of src/order/ keep the account of nonces, on every path.
use acmex.Base.{ℕ, zero, suc, String, List}
use acmex.Act.Triple.{Keeps, Keeps-bind, keeps_rules}
use acmex.Net.{Io, sleep}
use acmex.Platform.{Platform}
use acmex.Protocol.Request.{Manager}
use acmex.Protocol.Fresh.{IsFresh}
use acmex.Protocol.Fresh.Requests.{signed_post-IsFresh, get-IsFresh}
use acmex.Order.Objects.{Order, NewOrderRequest}
use acmex.Order.Manager.{
  create_order, get_order, get_authorization, respond_to_challenge, judge, poll_from, poll_order,
  finalize_order, download_certificate,
}
use acmex.Order.Revocation.{CertificateRevocation, revoke}

pub sleep-IsFresh : (n : ℕ) → Keeps IsFresh (sleep n)
sleep-IsFresh n = record { run = λ w h. record { paid = h.paid } }

pub ruleset fresh_rules = (keeps_rules, signed_post-IsFresh, get-IsFresh, sleep-IsFresh)

module _ {Key : Type 0} (p : Platform Key) (m : Manager Key) (id : String) where
  pub create_order-IsFresh : (r : NewOrderRequest) → Keeps IsFresh (create_order p m id r)
  unfolding create_order
  create_order-IsFresh r = search fresh_rules depth 12

  get_order-IsFresh : (url : String) → Keeps IsFresh (get_order p m id url)
  unfolding get_order
  get_order-IsFresh url = search fresh_rules

  pub get_authorization-IsFresh : (url : String) → Keeps IsFresh (get_authorization p m id url)
  unfolding get_authorization
  get_authorization-IsFresh url = search fresh_rules

  pub respond_to_challenge-IsFresh :
      (url : String) → Keeps IsFresh (respond_to_challenge p m id url)
  unfolding respond_to_challenge
  respond_to_challenge-IsFresh url = search fresh_rules

  judge-IsFresh :
      (o : Order) (interval : ℕ) (next : Io Order)
      → Keeps IsFresh next
      → Keeps IsFresh (judge p m id o interval next)
  unfolding judge
  judge-IsFresh o interval next k = search fresh_rules

  poll_from-IsFresh :
      (url : String) (limit interval left : ℕ)
      → Keeps IsFresh (poll_from p m id url limit interval left)
  unfolding poll_from
  poll_from-IsFresh url limit interval zero = search fresh_rules
  poll_from-IsFresh url limit interval (suc left) =
      Keeps-bind (get_order-IsFresh url)
        (λ o. judge-IsFresh o interval _ (poll_from-IsFresh url limit interval left))

  pub poll_order-IsFresh : (url : String) (n i : ℕ) → Keeps IsFresh (poll_order p m id url n i)
  unfolding poll_order
  poll_order-IsFresh url n i = poll_from-IsFresh url n i n

  pub finalize_order-IsFresh :
      (url : String) (csr : List ℕ) → Keeps IsFresh (finalize_order p m id url csr)
  unfolding finalize_order
  finalize_order-IsFresh url csr = search fresh_rules

  pub download_certificate-IsFresh :
      (url : String) → Keeps IsFresh (download_certificate p m id url)
  unfolding download_certificate
  download_certificate-IsFresh url = search fresh_rules

-- Revoking keeps the account.
pub revoke-IsFresh :
    {Key : Type 0} (p : Platform Key) (m : Manager Key) (r : CertificateRevocation)
    → Keeps IsFresh (revoke p m r)
unfolding revoke
revoke-IsFresh p m r = search fresh_rules
