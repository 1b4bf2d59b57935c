-- ===== src/Account/Results.antt =====
-- What registration has learnt from the server when it returns an account.
use acmex.Base.{String, ◌≡◌, refl, true, Bool, List, some}
use acmex.Act.{ok, done}
use acmex.Act.Triple.{
  Triple, Anything, returned, bind_rule, any_rule, ok_or_rule, refused_rule, raised_rule,
}
use acmex.Net.{World, Event, Response, header, is_success, json_body}
use acmex.Net.Value.{Json, bool, obj, end, field}
use acmex.Types.{Contact}
use acmex.Platform.{Platform}
use acmex.Protocol.Jwk.{to_value}
use acmex.Protocol.Request.{Manager, by_jwk}
use acmex.Protocol.Replied.{SignedReply, signed_post-SignedReply}
use acmex.Order.Results.{not-eq-false}
use acmex.Account.Object.{Account}
use acmex.Account.Manager.{jwk, contact_json, register}

module _ {Key : Type 0} (p : Platform Key) (m : Manager Key) (contacts : List Contact)
    (agreed : Bool) where
  abbrev pub registration : Json
  registration =
      obj (
        field "termsOfServiceAgreed" (bool agreed)
          (field "contact" (contact_json p m contacts) end))

  -- The last request registered the account, and its response was of success.
  abbrev Accepted : String → Response → List Event → Type 0
  Accepted new_account r log =
      SignedReply p m.key (by_jwk (to_value (jwk p m))) new_account registration r log
      × (is_success r.status ≡ true)

  abbrev pub Registered : Account → List Event → Type 0
  Registered account log =
      (new_account account_url : String) × (r : Response) × (answered : Account) × SignedReply p
        m.key (by_jwk (to_value (jwk p m))) new_account registration r log
      × (is_success r.status ≡ true)
      × (header r "location" ≡ some account_url)
      × (json_body p.account_of r.body ≡ done answered)
      × (account ≡ record answered { id = account_url })

  register-After :
      Triple Anything (register p m contacts agreed) (λ a w. Registered a w.log) Anything
  unfolding register
  register-After = bind_rule (any_rule _) (λ d.
      bind_rule (signed_post-SignedReply p m _ d.new_account registration _) (λ r.
        bind_rule
          (ok_or_rule (λ s h. tt)
            (λ u w.
              SignedReply p m.key (by_jwk (to_value (jwk p m))) d.new_account registration r w.log
              × (header r "location" ≡ some u))
            _ _ (λ u e w h. (h, e)))
          (λ u.
            bind_rule
              (refused_rule (λ s h. tt)
                (λ _ w. Accepted d.new_account r w.log × (header r "location" ≡ some u)) _ _
                (λ e w h. ((h.0, not-eq-false _ e), h.1)))
              (λ _.
                bind_rule
                  (raised_rule (λ s h. tt)
                    (λ a w.
                      Accepted d.new_account r w.log
                      × (header r "location" ≡ some u)
                      × (json_body p.account_of r.body ≡ done a))
                    _ _ (λ a e w h. (h.0, h.1, e)))
                  (λ a. record {
                    run = λ w h. (d.new_account, u, r, a, h.0.0, h.0.1, h.1, h.2, refl);
                  })))))

  -- Where registration returns an account, the last request carried the public key, the contacts and
  -- the agreement, and was signed by the key whose public part it carried; its response was of success, its Location header is
  -- the account's id, and the rest of the account is what its body decodes to.
  pub register-Registered :
      (w w' : World) (account : Account)
      → register p m contacts agreed w ≡ (ok account, w')
      → Registered account w'.log
  register-Registered w w' account e = returned register-After w tt account w' e
