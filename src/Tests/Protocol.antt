-- ===== src/Tests/Protocol.antt =====
-- Polls and nonce pools, evaluated.
use acmex.Base.{ℕ, String, ◌+◌, ◌≡◌, ◌≤◌, refl, true, List, [], ◌∷◌, ◌++◌, length, arith}
use acmex.Act.{ok, ◌>>=◌}
use acmex.Net
use acmex.Net.{World, json_body}
use acmex.Net.Value.{obj, end}
use acmex.Protocol.Jws
use acmex.Protocol.Nonce
use acmex.Protocol.NoncePool
use acmex.Protocol.NoncePool.{
  PoolState, NoncePool as Pool, refill, refill-fills, gets_nonce, refills, after_all,
  after_all-bounded,
}
use acmex.Protocol.Request
use acmex.Protocol.Request.{Manager, by_kid}
use acmex.Order.Manager as OrderManager
use acmex.Order.Manager.{poll_order}
use acmex.Order.Results.{Fetched, is_final, poll_order-returns}
use acmex.Order.Polling.{requests, poll_order-requests}
use acmex.Tests.Toy.{toy, world, reply, order_with}
use acmex.Platform.{Platform}

abbrev manager : Manager ℕ
manager = record { key = 7; nonce_url = "/nonce"; directory_url = "/dir" }

abbrev polling : World
polling = record (world (reply 200 "n2" "processing" ∷ reply 200 "n3" "valid" ∷ [])) {
  pool = "n1" ∷ [];
}

polling_ok :
    poll_order toy manager "/acct" "/order" 3 2 polling
    ≡ (ok (order_with "valid"), (poll_order toy manager "/acct" "/order" 3 2 polling).1)
unfolding ◌>>=◌ Net.send Net.exchange Net.header Request.signed_post Request.post_with
    Nonce.get_nonce Nonce.pop_or_fetch Nonce.fetch_nonce Nonce.cache_from Nonce.cache_if_some
    Nonce.cache_nonce Jws.sign Jws.header_json OrderManager.get_order OrderManager.judge
    OrderManager.poll_from OrderManager.poll_order
polling_ok = refl

poll_order-returns_example :
    (is_final toy (Manager.key manager) "/acct" "valid" ≡ true)
    × Fetched toy
        (Manager.key manager)
        (by_kid "/acct")
        "/order"
        (obj end)
        (json_body (Platform.order_of toy))
        (order_with "valid")
        (poll_order toy manager "/acct" "/order" 3 2 polling).1.log
poll_order-returns_example =
    poll_order-returns toy manager "/acct" "/order" 3 2 polling
      (poll_order toy manager "/acct" "/order" 3 2 polling).1 (order_with "valid") polling_ok

abbrev pool : Pool
pool = record { nonce_url = "/nonce"; min_size = 1; max_size = 3 }

abbrev half_full : PoolState
half_full = record { nonces = "a" ∷ []; world = record (world []) { pool = "b" ∷ "c" ∷ "d" ∷ [] } }

abbrev full : PoolState
full = record { nonces = "a" ∷ "b" ∷ "c" ∷ []; world = record (world []) { pool = "d" ∷ [] } }

refilled : refill toy pool half_full ≡ (ok tt, full)
unfolding ◌>>=◌ NoncePool.refill NoncePool.fill Nonce.get_nonce Nonce.pop_or_fetch
refilled = refl

refill-fills_example :
    (added : List String) × (PoolState.nonces full ≡ PoolState.nonces half_full ++ added)
    × (length (PoolState.nonces full) ≡ 3)
refill-fills_example = refill-fills toy pool half_full full (omega arith) refilled

after_all-bounded_example :
    length
      (PoolState.nonces (after_all toy pool (gets_nonce ∷ gets_nonce ∷ refills ∷ []) half_full))
    ≤ 3
after_all-bounded_example =
    after_all-bounded toy pool (gets_nonce ∷ gets_nonce ∷ refills ∷ []) half_full (omega arith)

poll_order-requests_example :
    requests (poll_order toy manager "/acct" "/order" 3 2 polling).1.log
    ≤ 3 + requests (World.log polling)
poll_order-requests_example = poll_order-requests toy manager "/acct" "/order" 3 2 polling
