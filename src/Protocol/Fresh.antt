-- ===== src/Protocol/Fresh.antt =====
-- Every nonce that a signed request carries was handed out by the server for it: the account that
-- the managers keep of nonces received, waiting and spent.
pub mod Requests
use acmex.Base.{
  String, ◌+◌, ◌≤◌, ◌≡◌, Option, none, some, List, [], ◌∷◌, count, count-nil, count-cons, arith,
}
use acmex.Act.Triple.{Triple}
use acmex.Net.Cases.{send_rule}
use acmex.Net.{World, Event, Reply, Response, JwsHeader, posted, received, header, send}

-- the nonces of the signed requests that were sent
abbrev pub spent : List Event → List String
spent [] = []
spent (posted url head payload body ∷ log) = head.nonce ∷ spent log
spent (_ ∷ log) = spent log

abbrev pub with_nonce : Option String → List String → List String
with_nonce none rest = rest
with_nonce (some nonce) rest = nonce ∷ rest

-- the nonces that the server's responses carried
abbrev pub issued : List Event → List String
issued [] = []
issued (received r ∷ log) = with_nonce (header r "replay-nonce") (issued log)
issued (_ ∷ log) = issued log

-- No nonce was sent, or waits to be sent, more often than the server issued it.
pub record IsFresh (w : World) : Type 0 where
  pub paid : (n : String) → count n (spent w.log) + count n w.pool ≤ count n (issued w.log)

-- The same while a nonce, or none, is in hand that stands in neither list.
pub record Holds (o : Option String) (w : World) : Type 0 where
  pub paid :
      (n : String)
      → count n (spent w.log) + count n w.pool + count n (with_nonce o []) ≤ count n (issued w.log)

abbrev pub nonce_of : Response → Option String
nonce_of r = header r "replay-nonce"

count-with_nonce :
    (n : String) (o : Option String) (xs : List String)
    → count n (with_nonce o xs) ≡ count n (with_nonce o []) + count n xs
count-with_nonce n none xs = omega (arith, count-nil n)
count-with_nonce n (some x) xs = count-cons n x xs

pub Holds-IsFresh : {o : Option String} {w : World} → Holds o w → IsFresh w
Holds-IsFresh h = record { paid = λ n. omega (arith, h.paid n) }

-- What a request that carries no nonce leaves the log's nonces to be.
abbrev pub IsQuiet : Event → Type 0
IsQuiet e = (log : List Event) → (spent (e ∷ log) ≡ spent log) × (issued (e ∷ log) ≡ issued log)

module _ (e : Event) (q : IsQuiet e) (w : World) (rest : List Reply) (h : IsFresh w) where
  lost_quiet : IsFresh (record w { replies = rest; log = e ∷ w.log })
  lost_quiet = record { paid = λ n. rw ((q w.log).0, (q w.log).1) (h.paid n) }

  received_quiet :
      (r : Response)
      → Holds (nonce_of r) (record w { replies = rest; log = received r ∷ e ∷ w.log })
  received_quiet r = record {
    paid = λ n.
        rw ((q w.log).0, (q w.log).1)
          (omega (arith, h.paid n, count-with_nonce n (nonce_of r) (issued w.log)));
  }

-- A request without a nonce: its response may bring one.
send_quiet :
    (e : Event) (what : String)
    → IsQuiet e
    → Triple IsFresh (send e what) (λ r. Holds (nonce_of r)) IsFresh
send_quiet e what q =
    send_rule (λ r. Holds (nonce_of r)) IsFresh e what (λ w rest h. lost_quiet e q w rest h)
      (λ w r rest h. received_quiet e q w rest h r)

module _ (url : String) (head : JwsHeader) (payload : _) (body : String) where
  -- A signed request spends the nonce in hand, and its response may bring another.
  send_signed :
      (what : String)
      → Triple
          (Holds (some head.nonce))
          (send (posted url head payload body) what)
          (λ r. Holds (nonce_of r))
          IsFresh
  send_signed what =
      send_rule (λ r. Holds (nonce_of r)) IsFresh (posted url head payload body) what
        (λ w rest h. record {
          paid = λ n. omega (arith, h.paid n, count-cons n head.nonce (spent w.log));
        })
        (λ w r rest h. record {
          paid = λ n. omega (
            arith,
            h.paid n,
            count-cons n head.nonce (spent w.log),
            count-with_nonce n (nonce_of r) (issued w.log),
          );
        })
