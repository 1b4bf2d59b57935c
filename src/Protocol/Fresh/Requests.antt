-- ===== src/Protocol/Fresh/Requests.antt =====
-- The managers of src/protocol/ keep the account of nonces.
use acmex.Base.{
  String, ◌≡◌, refl, Option, none, some, List, [], ◌∷◌, subst, ap, count, count-cons, arith,
}
use acmex.Act.{modify}
use acmex.Act.Triple.{
  Triple, Keeps, After, weaken_rule, bind_rule, refuse_rule, ok_or_rule, lift_rule, keeps_rules,
  Keeps-pure,
}
use acmex.Net.{World, Event, Response, headed, got, send, Directory as DirectoryData}
use acmex.Net.Value.{Json}
use acmex.Platform.{Platform}
use acmex.Protocol.Directory
use acmex.Protocol.Nonce.{fetch_nonce, pop_or_fetch, get_nonce, cache_if_some, cache_from}
use acmex.Protocol.Request.{
  Manager, Signer, by_jwk, by_kid, protected_header, post_with, signed_post,
}
use acmex.Protocol.Fresh.{IsFresh, Holds, Holds-IsFresh, IsQuiet, nonce_of, send_quiet, send_signed}

cache_if_some-IsFresh :
    (o : Option String) → Triple (Holds o) (cache_if_some o) (λ _. IsFresh) IsFresh
unfolding cache_if_some
cache_if_some-IsFresh none = record { run = λ w. Holds-IsFresh }
cache_if_some-IsFresh (some n) = record {
  run = λ w h. record { paid = λ k. omega (arith, h.paid k, count-cons k n w.pool) };
}

cache_from-IsFresh :
    (r : Response) → Triple (Holds (nonce_of r)) (cache_from r) (λ _. IsFresh) IsFresh
unfolding cache_from
cache_from-IsFresh r = cache_if_some-IsFresh (nonce_of r)

Keeps-send_quiet : (e : Event) (what : String) → IsQuiet e → Keeps IsFresh (send e what)
Keeps-send_quiet e what q = weaken_rule (λ r w. Holds-IsFresh) (send_quiet e what q)

set_directory-IsFresh :
    (d : DirectoryData) → Keeps IsFresh (modify (λ (w : World). record w { directory = some d }))
set_directory-IsFresh d = record { run = λ w h. record { paid = h.paid } }

module _ {Key : Type 0} (p : Platform Key) where
  fetch_nonce-Holds :
      (url : String) → Triple IsFresh (fetch_nonce p url) (λ n. Holds (some n)) IsFresh
  unfolding fetch_nonce
  fetch_nonce-Holds url =
      bind_rule (send_quiet (headed url) "Failed to fetch nonce" (λ log. (refl, refl))) (λ r.
        bind_rule (refuse_rule (λ s. Holds-IsFresh) _ _) (λ _.
          ok_or_rule (λ s. Holds-IsFresh) (λ n. Holds (some n)) (nonce_of r) _
            (λ n e w h. subst (λ o. Holds o w) e h)))

  pop_or_fetch-Holds :
      (url : String) (pool : List String) (w : World)
      → w.pool ≡ pool
      → IsFresh w
      → let out = pop_or_fetch p url pool w in After (λ n. Holds (some n)) IsFresh out.0 out.1
  unfolding pop_or_fetch
  pop_or_fetch-Holds url [] w e h = (fetch_nonce-Holds url).run w h
  pop_or_fetch-Holds url (n ∷ rest) w e h = record {
    paid = λ k. omega (arith, h.paid k, ap (count k) e, count-cons k n rest);
  }

  -- A nonce that `get_nonce` returns is in neither list, and was issued.
  pub get_nonce-Holds :
      (url : String) → Triple IsFresh (get_nonce p url) (λ n. Holds (some n)) IsFresh
  unfolding get_nonce
  get_nonce-Holds url = record { run = λ w h. pop_or_fetch-Holds url w.pool w refl h }

  module _ (m : Manager Key) where
    post_with-IsFresh :
        (nonce : String) (signer : Signer) (url : String) (payload : Json) (what : String)
        → Triple
            (Holds (some nonce))
            (post_with p m nonce signer url payload what)
            (λ _. IsFresh)
            IsFresh
    unfolding post_with
    post_with-IsFresh nonce (by_jwk j) url payload what =
        bind_rule (lift_rule (λ s. Holds-IsFresh) _) (λ jws.
          bind_rule (send_signed url (protected_header (by_jwk j) nonce url) payload jws what)
            (λ r. bind_rule (cache_from-IsFresh r) (λ _. Keeps-pure r)))
    post_with-IsFresh nonce (by_kid k) url payload what =
        bind_rule (lift_rule (λ s. Holds-IsFresh) _) (λ jws.
          bind_rule (send_signed url (protected_header (by_kid k) nonce url) payload jws what)
            (λ r. bind_rule (cache_from-IsFresh r) (λ _. Keeps-pure r)))

    -- Every signed request keeps the account, whether it returns or fails.
    pub signed_post-IsFresh :
        (signer : Signer) (url : String) (payload : Json) (what : String)
        → Keeps IsFresh (signed_post p m signer url payload what)
    unfolding signed_post
    signed_post-IsFresh signer url payload what =
        bind_rule (get_nonce-Holds (Manager.nonce_url m))
          (λ nonce. post_with-IsFresh nonce signer url payload what)

  fetch-IsFresh : (url : String) → Keeps IsFresh (Directory.fetch p url)
  unfolding Directory.fetch
  fetch-IsFresh url =
      bind_rule (Keeps-send_quiet (got url) "Failed to fetch directory" (λ log. (refl, refl)))
        (λ r. search (keeps_rules, set_directory-IsFresh))

  cached_or_fetch-IsFresh :
      (url : String) (o : Option DirectoryData) → Keeps IsFresh (Directory.cached_or_fetch p url o)
  unfolding Directory.cached_or_fetch
  cached_or_fetch-IsFresh url none = fetch-IsFresh url
  cached_or_fetch-IsFresh url (some d) = Keeps-pure d

  pub get-IsFresh : (url : String) → Keeps IsFresh (Directory.get p url)
  unfolding Directory.get
  get-IsFresh url = record { run = λ w h. (cached_or_fetch-IsFresh url w.directory).run w h }
