-- ===== src/Protocol/Replied.antt =====
-- What a signed request knows of the log once it has returned a response.
use acmex.Base.{String, ◌≡◌, refl, Option, none, some, List, ◌∷◌}
use acmex.Act.Triple.{Triple, Anything, bind_rule, any_rule, lifted_rule}
use acmex.Net.{World, Event, Response, posted, received, header}
use acmex.Net.Value.{Json}
use acmex.Net.Cases.{send_rule}
use acmex.Platform.{Platform}
use acmex.Protocol.Nonce.{cache_from, cache_if_some}
use acmex.Act.{ok}
use acmex.Protocol.Jws.{sign, header_json}
use acmex.Protocol.Request.{Manager, Signer, protected_header, post_with, signed_post}

-- The last two events are this request, for this signer, URL and payload, sent as this key signs it, and
-- its response.
abbrev pub SignedReply :
    {Key : Type 0} → Platform Key → Key → Signer → String → Json → Response → List Event → Type 0
SignedReply p key signer url payload r log =
    (nonce body : String) × (before : List Event) × (log
      ≡ received r ∷ posted url (protected_header signer nonce url) payload body ∷ before)
    × (sign p key (header_json (protected_header signer nonce url)) payload ≡ ok body)

module _ (P : List Event → Type 0) where
  cache_if_some_log :
      (o : Option String)
      → Triple (λ (w : World). P w.log) (cache_if_some o) (λ _ w. P w.log) Anything
  unfolding cache_if_some
  cache_if_some_log none = record { run = λ w h. h }
  cache_if_some_log (some n) = record { run = λ w h. h }

  -- Caching a nonce does not touch the log.
  cache_from_log :
      (r : Response) → Triple (λ (w : World). P w.log) (cache_from r) (λ _ w. P w.log) Anything
  unfolding cache_from
  cache_from_log r = cache_if_some_log (header r "replay-nonce")

module _ {Key : Type 0} (p : Platform Key) (m : Manager Key) where
  pub post_with-SignedReply :
      (nonce : String) (signer : Signer) (url : String) (payload : Json) (what : String)
      → Triple Anything
          (post_with p m nonce signer url payload what)
          (λ r w. SignedReply p m.key signer url payload r w.log)
          Anything
  unfolding post_with
  post_with-SignedReply nonce signer url payload what =
      let head = protected_header signer nonce url in
      bind_rule
        (lifted_rule (λ w h. tt) (λ body _. sign p m.key (header_json head) payload ≡ ok body) _
          (λ body e w h. e))
        (λ body.
          bind_rule
            (send_rule (λ r w. SignedReply p m.key signer url payload r w.log) Anything _ what
              (λ w rest h. tt) (λ w r rest h. (nonce, body, w.log, refl, h)))
            (λ r.
              bind_rule (cache_from_log (SignedReply p m.key signer url payload r) r)
                (λ _. record { run = λ w h. h })))

  pub signed_post-SignedReply :
      (signer : Signer) (url : String) (payload : Json) (what : String)
      → Triple Anything
          (signed_post p m signer url payload what)
          (λ r w. SignedReply p m.key signer url payload r w.log)
          Anything
  unfolding signed_post
  signed_post-SignedReply signer url payload what =
      bind_rule (any_rule _) (λ nonce. post_with-SignedReply nonce signer url payload what)
