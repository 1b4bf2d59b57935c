-- ===== src/Client/Fresh.antt =====
-- A whole call of the client, from registration to the downloaded certificate, replays no nonce.
use acmex.Base.{String, ◌≤◌, List, [], ◌∷◌, Option, none, some, count, count-nil, arith}
use acmex.Act.Triple.{After-same, Keeps, Keeps-bind, Keeps-pure, keeps_rules}
use acmex.Net.{World}
use acmex.Platform.{Platform}
use acmex.Challenge.Fresh.{prepare-IsFresh, present-IsFresh}
use acmex.Protocol.Request.{Manager}
use acmex.Protocol.Fresh.{IsFresh, spent, issued}
use acmex.Protocol.Fresh.Requests.{get-IsFresh}
use acmex.Order.Objects.{Order}
use acmex.Order.Fresh.{
  create_order-IsFresh, get_authorization-IsFresh, respond_to_challenge-IsFresh, poll_order-IsFresh,
  finalize_order-IsFresh, download_certificate-IsFresh,
}
use acmex.Account.Fresh.{register-IsFresh}
use acmex.Client.Config.{
  Client, new_managers, set_account, managers, register_account, ensured, unwrap_id, ensure_account,
}
use acmex.Client.Issue.{
  count_draw, generate, authorize, authorize_all, complete, create_order, issue_certificate,
}

new_managers-IsFresh : Keeps IsFresh new_managers
new_managers-IsFresh = record {
  run = λ w h. record { paid = λ n. omega (arith, h.paid n, count-nil n) };
}

set_account-IsFresh : (id : String) → Keeps IsFresh (set_account id)
set_account-IsFresh id = record { run = λ w h. record { paid = h.paid } }

pub count_draw-IsFresh : Keeps IsFresh count_draw
count_draw-IsFresh = record { run = λ w h. record { paid = h.paid } }

unwrap_id-IsFresh : (o : Option String) → Keeps IsFresh (unwrap_id o)
unwrap_id-IsFresh none = record { run = λ w h. h }
unwrap_id-IsFresh (some id) = record { run = λ w h. h }

module _ {Key : Type 0} (p : Platform Key) where
  generate-IsFresh : (ds : List String) → Keeps IsFresh (generate p ds)
  unfolding generate
  generate-IsFresh ds = search (keeps_rules, count_draw-IsFresh) depth 10

  module _ (m : Manager Key) (id : String) where
    authorize-IsFresh : (url : String) → Keeps IsFresh (authorize p m id url)
    unfolding authorize
    authorize-IsFresh url =
        search
          (
            keeps_rules, get_authorization-IsFresh, respond_to_challenge-IsFresh, prepare-IsFresh,
            present-IsFresh,
          )
          depth 24

    authorize_all-IsFresh : (urls : List String) → Keeps IsFresh (authorize_all p m id urls)
    unfolding authorize_all
    authorize_all-IsFresh [] = Keeps-pure tt
    authorize_all-IsFresh (url ∷ rest) =
        Keeps-bind (authorize-IsFresh url) (λ _. authorize_all-IsFresh rest)

    complete-IsFresh :
        (ds : List String) (url : String) (o : Order) → Keeps IsFresh (complete p m id ds url o)
    unfolding complete
    complete-IsFresh ds url o =
        search
          (
            keeps_rules, authorize_all-IsFresh, poll_order-IsFresh, generate-IsFresh,
            finalize_order-IsFresh, download_certificate-IsFresh,
          )
          depth 30

  module _ (c : Client Key) where
    managers-IsFresh : Keeps IsFresh (managers p c)
    unfolding managers
    managers-IsFresh = search (keeps_rules, new_managers-IsFresh, get-IsFresh) depth 10

    pub register_account-IsFresh : Keeps IsFresh (register_account p c)
    unfolding register_account
    register_account-IsFresh =
        search (keeps_rules, managers-IsFresh, register-IsFresh, set_account-IsFresh) depth 10

    ensured-IsFresh : (o : Option String) → Keeps IsFresh (ensured p c o)
    unfolding ensured
    ensured-IsFresh none = register_account-IsFresh
    ensured-IsFresh (some id) = Keeps-pure id

    ensure_account-IsFresh : Keeps IsFresh (ensure_account p c)
    unfolding ensure_account
    ensure_account-IsFresh =
        Keeps-bind (record { run = λ w h. (ensured-IsFresh w.account_id).run w h })
          (λ _. record { run = λ w h. (unwrap_id-IsFresh w.account_id).run w h })

    create_order-Keeps-IsFresh : (ds : List String) → Keeps IsFresh (create_order p c ds)
    unfolding create_order
    create_order-Keeps-IsFresh ds =
        search (keeps_rules, ensure_account-IsFresh, managers-IsFresh, create_order-IsFresh) depth
          12

    pub issue_certificate-IsFresh : (ds : List String) → Keeps IsFresh (issue_certificate p c ds)
    unfolding issue_certificate
    issue_certificate-IsFresh ds =
        search
          (
            keeps_rules, ensure_account-IsFresh, managers-IsFresh, create_order-IsFresh,
            complete-IsFresh,
          )
          depth 12

    -- Issuing a certificate sends no nonce more often than the server's responses have carried it,
    -- from a state in which that held, and whether the call returns, fails or panics.
    pub issue_certificate-replays_none :
        (ds : List String) (w : World) (n : String)
        → IsFresh w
        → let log = (issue_certificate p c ds w).1.log in count n (spent log) ≤ count n (issued log)
    issue_certificate-replays_none ds w n h = omega (
      arith,
      (After-same IsFresh (issue_certificate p c ds w).0 (issue_certificate p c ds w).1
            ((issue_certificate-IsFresh ds).run w h)).paid
          n,
    )
