-- ===== src/Account/KeyRollover.antt =====
-- src/account/key_rollover.rs: replacing the account's key by a request that both keys sign.
use acmex.Base.{ℕ, String, ◌<>◌, ◌≡◌, refl, subst, true, ap, ◌∙◌, not, false, List, [], ◌∷◌}
use acmex.Base.Split.{split_dot, has_dot, split_dot-front, split_dot-whole}
use acmex.Error.{AcmeError}
use acmex.Act.{Outcome, done, ok, panic, pure, lift, or_raise, refuse_if, ◌>>=◌, ◌>>◌}
use acmex.Net.{World, Event, Io, Response, is_success, text_or_unknown, json_body}
use acmex.Net.Value.{Json, str, obj, end, field}
use acmex.Platform.{Platform}
use acmex.Protocol.Directory
use acmex.Protocol.Jwk.{Jwk, new_ed_25519, to_value}
use acmex.Protocol.Jws.{sign, compact, header_part, payload_part, sign-compact, IsSignature}
use acmex.Protocol.Request.{Manager, by_kid, post_with}
use acmex.Protocol.Nonce.{get_nonce}
use acmex.Account.Manager.{jwk}
use acmex.Account.Object.{Account}
use acmex.Act.Triple.{
  Triple, Anything, weaken_rule, refused_rule, raised_rule, returned, bind_rule, any_rule,
  lifted_rule,
}
use acmex.Protocol.Replied.{SignedReply, post_with-SignedReply}
use acmex.Order.Results.{not-eq-false}

-- The inner signature as the payload of the outer one; the parts are indexed by 0, 1 and 2.
abbrev pub signed_parts : String → String → String → Json
signed_parts header payload signature = obj (
    field "payload" (str payload)
      (field "protected" (str header) (field "signature" (str signature) end)))

unfoldable pub inner_object : List String → Outcome Json
inner_object (header ∷ payload ∷ signature ∷ _) = ok (signed_parts header payload signature)
inner_object _ = panic "index out of bounds"

module _ {Key : Type 0} (p : Platform Key) (m : Manager Key) (new_key : Key) where
  unfoldable pub new_jwk : Jwk
  new_jwk = new_ed_25519 (p.base64url (p.public_key new_key))

  abbrev pub inner_header : String → Json
  inner_header key_change_url = obj (
      field "alg" (str "EdDSA")
        (field "jwk" (to_value new_jwk) (field "url" (str key_change_url) end)))

  abbrev pub inner_payload : String → Json
  inner_payload account_url =
      obj (field "account" (str account_url) (field "oldKey" (to_value (jwk p m)) end))

  unfoldable pub execute : String → Io Account
  execute account_url = do
    directory ← Directory.get p (Manager.directory_url m)
    inner_jws ←
        lift (sign p new_key (inner_header directory.key_change) (inner_payload account_url))
    nonce ← get_nonce p (Manager.nonce_url m)
    inner_jws_obj ← lift (inner_object (split_dot inner_jws))
    response ←
        post_with p m nonce (by_kid account_url) directory.key_change inner_jws_obj
          "Failed to change key"
    refuse_if (not (is_success response.status)) (
        AcmeError.account (
          "Failed to change key: HTTP "
          <> p.status_text response.status
          <> ": "
          <> text_or_unknown response.body))
    account ←
        or_raise (json_body p.account_of response.body)
          (λ e. AcmeError.account ("Failed to parse account response: " <> e))
    pure (record account { id = account_url })

  module _ (no_dot : (bytes : List ℕ) → has_dot (p.base64url bytes) ≡ false) where
    split_dot-compact :
        (header payload signature : String)
        → has_dot header ≡ false
        → has_dot payload ≡ false
        → has_dot signature ≡ false
        → split_dot (compact p header payload signature) ≡ header ∷ payload ∷ signature ∷ []
    split_dot-compact header payload signature h k l =
        split_dot-front header (payload <> ("." <> signature)) h
        ∙ ap (λ parts. header ∷ parts)
            (split_dot-front payload signature k
              ∙ ap (λ parts. payload ∷ parts) (split_dot-whole signature l))

    -- Where base64 writes no dot, the compact form of a signature under the new key is split into the
    -- three parts that the outer payload names, so that indexing them does not panic.
    inner_object-sign :
        (header : Json) (account_url jws : String)
        → sign p new_key header (inner_payload account_url) ≡ ok jws
        → (bytes : List ℕ) × IsSignature p new_key header (inner_payload account_url) bytes
          × (inner_object (split_dot jws)
              ≡ ok (
                  signed_parts
                    (header_part p header)
                    (payload_part p (inner_payload account_url))
                    (p.base64url bytes)))
    unfolding inner_object
    inner_object-sign header account_url jws e =
        let (bytes, signed, is_compact) =
          sign-compact p new_key header (inner_payload account_url) jws e in
        (
          bytes,
          signed,
          ap (λ text. inner_object (split_dot text)) is_compact
              ∙ ap inner_object (split_dot-compact _ _ _ (no_dot _) (no_dot _) (no_dot _)),
        )

    -- The account that the server answered with is at the old URL, and the key was changed by a
    -- request for that account, signed by the old key, whose payload holds the account, the old key
    -- and the new key's signature of these.
    pub Changed : String → Account → List Event → Type 0
    Changed account_url account log =
        (key_change_url : String) × (bytes : List ℕ) × (r : Response) × (answered : Account)
        × IsSignature p new_key (inner_header key_change_url) (inner_payload account_url) bytes
        × SignedReply p m.key (by_kid account_url) key_change_url
            (signed_parts (header_part p (inner_header key_change_url))
              (payload_part p (inner_payload account_url)) (p.base64url bytes))
            r log
        × (is_success r.status ≡ true)
        × (json_body p.account_of r.body ≡ done answered)
        × (account ≡ record answered { id = account_url })

    -- The payload of the outer request, by the signature in it.
    IsOuter : String → String → Json → Type 0
    IsOuter account_url key_change_url payload =
        (bytes : List ℕ) × IsSignature p new_key (inner_header key_change_url)
          (inner_payload account_url) bytes
        × (payload
            ≡ signed_parts (header_part p (inner_header key_change_url))
                (payload_part p (inner_payload account_url)) (p.base64url bytes))

    inner_rule :
        (account_url key_change_url jws : String)
        → sign p new_key (inner_header key_change_url) (inner_payload account_url) ≡ ok jws
        → Triple
            (Anything {S = World})
            (lift (inner_object (split_dot jws)))
            (λ payload _. IsOuter account_url key_change_url payload)
            Anything
    unfolding IsOuter
    inner_rule account_url key_change_url jws e =
        let (bytes, signed, split) =
          inner_object-sign (inner_header key_change_url) account_url jws e in
        lifted_rule (λ s h. tt) _ _ (λ payload is w h. (bytes, signed, cc))

    answered_rule :
        (account_url key_change_url : String) (payload : Json)
        → IsOuter account_url key_change_url payload
        → (r : Response) (refused : AcmeError) (broken : String → AcmeError)
        → Triple
            (λ (w : World). SignedReply p m.key (by_kid account_url) key_change_url payload r w.log)
            (refuse_if (not (is_success r.status)) refused
              >> (or_raise (json_body p.account_of r.body) broken >>= λ account.
                  pure (record account { id = account_url })))
            (λ account w. Changed account_url account w.log)
            Anything
    unfolding IsOuter Changed
    answered_rule account_url key_change_url payload outer r refused broken =
        bind_rule
          (refused_rule (λ s h. tt)
            (λ _ w.
              SignedReply p m.key (by_kid account_url) key_change_url payload r w.log
              × (is_success r.status ≡ true))
            _ _ (λ e w h. (h, not-eq-false _ e)))
          (λ _.
            bind_rule
              (raised_rule (λ s h. tt)
                (λ a w.
                  SignedReply p m.key (by_kid account_url) key_change_url payload r w.log
                  × (is_success r.status ≡ true)
                  × (json_body p.account_of r.body ≡ done a))
                _ _ (λ a e w h. (h.0, h.1, e)))
              (λ a. record {
                run = λ w h. (
                  key_change_url,
                  outer.0,
                  r,
                  a,
                  outer.1,
                  subst
                      (λ sent. SignedReply p m.key (by_kid account_url) key_change_url sent r w.log)
                      outer.2 h.0,
                  h.1,
                  h.2,
                  refl,
                );
              }))

    -- what is known of values, through any action
    fact_any :
        {A B : Type 0} (action : Io A)
        → B
        → Triple (Anything {S = World}) action (λ _ _. B) Anything
    fact_any action b = weaken_rule (λ a w h. b) (any_rule action)

    pub execute-After :
        (account_url : String)
        → Triple Anything
            (execute account_url)
            (λ account w. Changed account_url account w.log)
            Anything
    unfolding execute IsOuter Changed
    execute-After account_url = bind_rule (any_rule _) (λ d.
        bind_rule
          (lifted_rule (λ s h. tt)
            (λ jws _.
              sign p new_key (inner_header d.key_change) (inner_payload account_url) ≡ ok jws)
            _ (λ jws e w h. e))
          (λ jws.
            bind_rule
              {Q = λ nonce _.
                sign p new_key (inner_header d.key_change) (inner_payload account_url) ≡ ok jws}
              (record { run = λ w e. (fact_any (get_nonce p (Manager.nonce_url m)) e).run w tt })
              (λ nonce.
                bind_rule {Q = λ payload _. IsOuter account_url d.key_change payload}
                  (record { run = λ w e. (inner_rule account_url d.key_change jws e).run w tt })
                  (λ payload. record {
                    run = λ w outer.
                        (bind_rule
                            (post_with-SignedReply p m nonce (by_kid account_url) d.key_change
                              payload _)
                            (λ r. answered_rule account_url d.key_change payload outer r _ _)).run
                          w tt;
                  }))))

    -- Where base64 writes no dot and the change of the key returns an account, its id is the given
    -- URL, and the last request was signed for that account by the old key; its payload has the new
    -- key's signature of a header with the new key and of a payload with the account's URL and the old
    -- key; and the account is what the response of success decodes to.
    pub execute-Changed :
        (account_url : String) (w w' : World) (account : Account)
        → execute account_url w ≡ (ok account, w')
        → Changed account_url account w'.log
    execute-Changed account_url w w' account e =
        returned (execute-After account_url) w tt account w' e
