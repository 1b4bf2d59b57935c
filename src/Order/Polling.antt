-- ===== src/Order/Polling.antt =====
-- How many requests the loop of `poll_order` in src/order/manager.rs can cost.
use acmex.Base.{
  ℕ, zero, suc, ◌+◌, ◌≤◌, String, Option, none, some, List, [], ◌∷◌, arith, Bool, true, false,
  if◌then◌else◌,
}
use acmex.Error.{AcmeError}
use acmex.Act.{Outcome, ok, err, panic, pure, fail, ◌>>=◌, ◌>>◌}
use acmex.Act.Triple.{
  Triple, Keeps, After, After-same, bind_rule, Keeps-lift, Keeps-pure, keeps_rules,
}
use acmex.Net.{World, Event, Response, Io, posted, headed, send, header, sleep}
use acmex.Net.Cases.{send_rule}
use acmex.Net.Value.{Json}
use acmex.Platform.{Platform}
use acmex.Protocol.Nonce.{fetch_nonce, pop_or_fetch, get_nonce, cache_if_some, cache_from}
use acmex.Protocol.Request.{Manager, Signer, protected_header, post_with, signed_post}
use acmex.Order.Objects.{Order}
use acmex.Order.Manager.{get_order, judge, poll_from, poll_order}

-- the signed requests in a log
abbrev pub requests : List Event → ℕ
requests [] = 0
requests (posted _ _ _ _ ∷ log) = suc (requests log)
requests (_ ∷ log) = requests log

record Within (k : ℕ) (w : World) : Type 0 where
  bound : requests w.log ≤ k

module _ {A : Type 0} {k j : ℕ} (k≤j : k ≤ j) where
  widened :
      (r : Outcome A) (w : World)
      → After (λ _. Within k) (Within k) r w
      → After (λ _. Within j) (Within j) r w
  widened (ok a) w h = record { bound = omega (arith, h.bound, k≤j) }
  widened (err e) w h = record { bound = omega (arith, h.bound, k≤j) }
  widened (panic e) w h = record { bound = omega (arith, h.bound, k≤j) }

  -- A larger bound holds too.
  widen :
      {P : World → Type 0} {m : Io A}
      → Triple P m (λ _. Within k) (Within k)
      → Triple P m (λ _. Within j) (Within j)
  widen {m} t = record { run = λ w h. widened (m w).0 (m w).1 (t.run w h) }

module _ (k : ℕ) where
  cache_if_some-Within : (o : Option String) → Keeps (Within k) (cache_if_some o)
  unfolding cache_if_some
  cache_if_some-Within none = record { run = λ w h. h }
  cache_if_some-Within (some n) = record { run = λ w h. record { bound = h.bound } }

  cache_from-Within : (r : Response) → Keeps (Within k) (cache_from r)
  unfolding cache_from
  cache_from-Within r = cache_if_some-Within (header r "replay-nonce")

  headed-Within : (url what : String) → Keeps (Within k) (send (headed url) what)
  headed-Within url what =
      send_rule (λ _. Within k) (Within k) (headed url) what
        (λ w rest h. record { bound = h.bound }) (λ w r rest h. record { bound = h.bound })

  -- A signed request adds one.
  posted-Within :
      (url : String) (head : _) (payload : Json) (body what : String)
      → Triple
          (Within k)
          (send (posted url head payload body) what)
          (λ _. Within (suc k))
          (Within (suc k))
  posted-Within url head payload body what =
      send_rule (λ _. Within (suc k)) (Within (suc k)) (posted url head payload body) what
        (λ w rest h. record { bound = omega (arith, h.bound) })
        (λ w r rest h. record { bound = omega (arith, h.bound) })

  sleep-Within : (n : ℕ) → Keeps (Within k) (sleep n)
  sleep-Within n = record { run = λ w h. record { bound = h.bound } }

  module _ {Key : Type 0} (p : Platform Key) where
    fetch_nonce-Within : (url : String) → Keeps (Within k) (fetch_nonce p url)
    unfolding fetch_nonce
    fetch_nonce-Within url = search (keeps_rules, headed-Within)

    pop_or_fetch-Within :
        (url : String) (pool : List String) → Keeps (Within k) (pop_or_fetch p url pool)
    unfolding pop_or_fetch
    pop_or_fetch-Within url [] = record { run = λ w h. (fetch_nonce-Within url).run w h }
    pop_or_fetch-Within url (n ∷ rest) = record { run = λ w h. record { bound = h.bound } }

    get_nonce-Within : (url : String) → Keeps (Within k) (get_nonce p url)
    unfolding get_nonce
    get_nonce-Within url = record { run = λ w h. (pop_or_fetch-Within url w.pool).run w h }

kept_one :
    {A : Type 0} (k : ℕ) (r : Outcome A) (w : World)
    → After (λ _. Within k) (Within k) r w
    → After (λ _. Within k) (Within (suc k)) r w
kept_one k (ok a) w h = h
kept_one k (err e) w h = record { bound = omega (arith, h.bound) }
kept_one k (panic e) w h = record { bound = omega (arith, h.bound) }

-- before the request
keep_one :
    {A : Type 0} {m : Io A} (k : ℕ)
    → Keeps (Within k) m
    → Triple (Within k) m (λ _. Within k) (Within (suc k))
keep_one {m} k t = record { run = λ w h. kept_one k (m w).0 (m w).1 (t.run w h) }

widened_err :
    {A : Type 0} (k left : ℕ) (r : Outcome A) (w : World)
    → After (λ _. Within (suc k)) (Within (suc k)) r w
    → After (λ _. Within (suc k)) (Within (suc left + k)) r w
widened_err k left (ok a) w h = h
widened_err k left (err e) w h = record { bound = omega (arith, h.bound) }
widened_err k left (panic e) w h = record { bound = omega (arith, h.bound) }

-- one request, where more rounds follow
widen_both :
    {A : Type 0} {m : Io A} (k left : ℕ)
    → Triple (Within k) m (λ _. Within (suc k)) (Within (suc k))
    → Triple (Within k) m (λ _. Within (suc k)) (Within (suc left + k))
widen_both {m} k left t = record { run = λ w h. widened_err k left (m w).0 (m w).1 (t.run w h) }

-- a round of the loop: over, waiting for the next, or refused
judged-Within :
    (k j : ℕ) {A : Type 0} (a : A) (n : ℕ) (next : Io A) (e : AcmeError) (final waiting : Bool)
    → k ≤ j
    → Triple (Within k) next (λ _. Within j) (Within j)
    → Triple
        (Within k)
        (if final then pure a else if waiting then sleep n >> next else fail e)
        (λ _. Within j)
        (Within j)
unfolding ◌>>=◌
judged-Within k j a n next e true waiting k≤j t = record {
  run = λ w h. record { bound = omega (arith, h.bound, k≤j) };
}
judged-Within k j a n next e false true k≤j t = record {
  run = λ w h. t.run _ (record { bound = h.bound });
}
judged-Within k j a n next e false false k≤j t = record {
  run = λ w h. record { bound = omega (arith, h.bound, k≤j) };
}

module _ {Key : Type 0} (p : Platform Key) (m : Manager Key) (id : String) where
  signed_post-Within :
      (k : ℕ) (signer : Signer) (url : String) (payload : Json) (what : String)
      → Triple
          (Within k)
          (signed_post p m signer url payload what)
          (λ _. Within (suc k))
          (Within (suc k))
  unfolding signed_post post_with
  signed_post-Within k signer url payload what =
      bind_rule (keep_one k (get_nonce-Within k p _)) (λ nonce.
        bind_rule (keep_one k (Keeps-lift _)) (λ jws.
          bind_rule (posted-Within k url (protected_header signer nonce url) payload jws what)
            (λ r. bind_rule (cache_from-Within (suc k) r) (λ _. Keeps-pure r))))

  get_order-Within :
      (k : ℕ) (url : String)
      → Triple (Within k) (get_order p m id url) (λ _. Within (suc k)) (Within (suc k))
  unfolding get_order
  get_order-Within k url = bind_rule (signed_post-Within k _ _ _ _) (λ r. search keeps_rules)

  -- what is left to the next rounds
  judge-Within :
      (k j : ℕ) (o : Order) (interval : ℕ) (next : Io Order)
      → k ≤ j
      → Triple (Within k) next (λ _. Within j) (Within j)
      → Triple (Within k) (judge p m id o interval next) (λ _. Within j) (Within j)
  unfolding judge
  judge-Within k j o interval next k≤j t = judged-Within k j o interval next _ _ _ k≤j t

  poll_from-Within :
      (k left : ℕ) (url : String) (limit interval : ℕ)
      → Triple
          (Within k)
          (poll_from p m id url limit interval left)
          (λ _. Within (left + k))
          (Within (left + k))
  unfolding poll_from
  poll_from-Within k zero url limit interval = record {
    run = λ w h. record { bound = omega (arith, h.bound) };
  }
  poll_from-Within k (suc left) url limit interval =
      bind_rule (widen_both k left (get_order-Within k url)) (λ o.
        judge-Within (suc k) (suc left + k) o interval _ (omega arith)
          (widen (omega arith) (poll_from-Within (suc k) left url limit interval)))

  -- Polling costs no more signed requests than the attempts that it is allowed, whether it returns,
  -- fails or panics.
  pub poll_order-requests :
      (url : String) (attempts interval : ℕ) (w : World)
      → requests (poll_order p m id url attempts interval w).1.log ≤ attempts + requests w.log
  unfolding poll_order
  poll_order-requests url attempts interval w =
      (After-same (Within (attempts + requests w.log)) _ _ (
        (poll_from-Within (requests w.log) attempts url attempts interval).run w
          (record { bound = omega arith }))).bound
