-- ===== src/Protocol/Once.antt =====
-- The log only grows: what its events showed at some moment of a run stays on record, through every
-- action of src/protocol/.
use acmex.Base.{String, ◌≡◌, refl, ap, Option, none, some, List, [], ◌∷◌, ◌++◌}
use acmex.Act.{Act, Outcome, ok, err, panic, modify}
use acmex.Act.Triple.{
  Triple, Keeps, Anything, After, weaken_rule, any_rule, keeps_rules, Keeps-pure,
}
use acmex.Net.{World, Event, Response, send, header, Directory as DirectoryData}
use acmex.Net.Cases.{send_rule}
use acmex.Net.Value.{Json}
use acmex.Platform.{Platform}
use acmex.Protocol.Directory
use acmex.Protocol.Nonce.{fetch_nonce, pop_or_fetch, get_nonce, cache_if_some, cache_from}
use acmex.Protocol.Request.{Manager, Signer, post_with, signed_post}

-- At some moment the log, which has grown since, was `past`, and satisfied `P`.
abbrev pub Earlier : (List Event → Type 0) → List Event → Type 0
Earlier P log = (past later : List Event) × P past × (log ≡ later ++ past)

pub record Once (P : List Event → Type 0) (w : World) : Type 0 where
  pub earlier : Earlier P w.log

pub Once-now : {P : List Event → Type 0} {w : World} → P w.log → Once P w
Once-now h = record { earlier = (_, [], h, refl) }

-- one more event
pub Earlier-cons :
    {P : List Event → Type 0} {log : List Event} (e : Event) → Earlier P log → Earlier P (e ∷ log)
Earlier-cons e h = (h.0, e ∷ h.1, h.2, ap (λ l. e ∷ l) h.3)

module _ {A : Type 0} (K : World → Type 0) (Q : A → World → Type 0) where
  joined :
      (r : Outcome A) (w : World)
      → After Q Anything r w
      → After (λ _. K) K r w
      → After (λ a w. Q a w × K w) Anything r w
  joined (ok a) w h k = (h, k)
  joined (err e) w h k = tt
  joined (panic m) w h k = tt

-- An action that keeps a record of the past adds what it establishes itself.
pub also_rule :
    {A : Type 0} {m : Act World A} {K : World → Type 0} {Q : A → World → Type 0}
    → Keeps K m
    → Triple Anything m Q Anything
    → Triple K m (λ a w. Q a w × K w) Anything
also_rule {m} {K} {Q} k t = record {
  run = λ w h. joined K Q (m w).0 (m w).1 (t.run w tt) (k.run w h);
}

-- The same action, of which only the success is of interest.
pub keep_rule :
    {A : Type 0} {m : Act World A} {K : World → Type 0} → Keeps K m → Triple K m (λ _. K) Anything
keep_rule {m} k = weaken_rule (λ a w h. h.1) (also_rule k (any_rule m))

-- A fact about values, beside what holds of the state.
pub fact_rule :
    {A B : Type 0} {m : Act World A} {K : World → Type 0} {Q : A → World → Type 0}
    → (B → Triple K m Q Anything)
    → Triple (λ w. B × K w) m Q Anything
fact_rule t = record { run = λ w h. (t h.0).run w h.1 }

module _ (P : List Event → Type 0) where
  pub Keeps-send : (e : Event) (what : String) → Keeps (Once P) (send e what)
  Keeps-send e what =
      send_rule (λ _. Once P) (Once P) e what
        (λ w rest h. record { earlier = Earlier-cons e h.earlier })
        (λ w r rest h. record { earlier = Earlier-cons _ (Earlier-cons e h.earlier) })

  cache_if_some-Once : (o : Option String) → Keeps (Once P) (cache_if_some o)
  unfolding cache_if_some
  cache_if_some-Once none = record { run = λ w h. h }
  cache_if_some-Once (some n) = record { run = λ w h. record { earlier = h.earlier } }

  cache_from-Once : (r : Response) → Keeps (Once P) (cache_from r)
  unfolding cache_from
  cache_from-Once r = cache_if_some-Once (header r "replay-nonce")

  set_directory-Once :
      (d : DirectoryData) → Keeps (Once P) (modify (λ (w : World). record w { directory = some d }))
  set_directory-Once d = record { run = λ w h. record { earlier = h.earlier } }

  module _ {Key : Type 0} (p : Platform Key) where
    fetch_nonce-Once : (url : String) → Keeps (Once P) (fetch_nonce p url)
    unfolding fetch_nonce
    fetch_nonce-Once url = search (keeps_rules, Keeps-send)

    pop_or_fetch-Once :
        (url : String) (pool : List String) → Keeps (Once P) (pop_or_fetch p url pool)
    unfolding pop_or_fetch
    pop_or_fetch-Once url [] = record { run = λ w h. (fetch_nonce-Once url).run w h }
    pop_or_fetch-Once url (n ∷ rest) = record { run = λ w h. record { earlier = h.earlier } }

    get_nonce-Once : (url : String) → Keeps (Once P) (get_nonce p url)
    unfolding get_nonce
    get_nonce-Once url = record { run = λ w h. (pop_or_fetch-Once url w.pool).run w h }

    fetch-Once : (url : String) → Keeps (Once P) (Directory.fetch p url)
    unfolding Directory.fetch
    fetch-Once url = search (keeps_rules, Keeps-send, set_directory-Once) depth 12

    cached_or_fetch-Once :
        (url : String) (o : Option DirectoryData)
        → Keeps (Once P) (Directory.cached_or_fetch p url o)
    unfolding Directory.cached_or_fetch
    cached_or_fetch-Once url none = fetch-Once url
    cached_or_fetch-Once url (some d) = Keeps-pure d

    pub get-Once : (url : String) → Keeps (Once P) (Directory.get p url)
    unfolding Directory.get
    get-Once url = record { run = λ w h. (cached_or_fetch-Once url w.directory).run w h }

    module _ (m : Manager Key) where
      post_with-Once :
          (nonce : String) (signer : Signer) (url : String) (payload : Json) (what : String)
          → Keeps (Once P) (post_with p m nonce signer url payload what)
      unfolding post_with
      post_with-Once nonce signer url payload what =
          search (keeps_rules, Keeps-send, cache_from-Once)

      pub signed_post-Once :
          (signer : Signer) (url : String) (payload : Json) (what : String)
          → Keeps (Once P) (signed_post p m signer url payload what)
      unfolding signed_post
      signed_post-Once signer url payload what =
          search (keeps_rules, get_nonce-Once, post_with-Once)
