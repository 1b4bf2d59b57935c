-- ===== src/Renewal/Results.antt =====
-- What a round of the renewals of src/renewal/mod.rs leaves behind.
use acmex.Base.{ℕ, String, ◌≡◌, refl, sym, subst, Bool, true, false, Option, some, List, [], ◌∷◌}
use acmex.Error.{AcmeError}
use acmex.Act.{Act, Outcome, ok, err, panic, done}
use acmex.Act.Triple.{
  Triple, Keeps, After, Anything, bind_rule, any_rule, catch_rule, if_rule, returned,
}
use acmex.Net.{Io}
use acmex.Platform.{Platform}
use acmex.Client.Config.{Client}
use acmex.Client.Issue.{CertificateBundle}
use acmex.Certificate.X509.{Parsers}
use acmex.Storage.Backend.{Backend, IsMap}
use acmex.Storage.Certificates
use acmex.Storage.Certificates.{Codec, save, key_for_domains, load-save}
use acmex.Renewal.Scheduler.{
  HookCall, before_renewal, after_renewal, on_error, Renewals, Settings, on_world, on_store, call,
  renew, renew_due, visit, round,
}

-- Each call before a renewal is followed at once by one that says how it ended, for the same domains.
pub data Paired : List HookCall → Type 0 where
  nothing : Paired []
  renewed :
      {calls : List HookCall} (domains : List String) (bundle : CertificateBundle)
      → Paired calls
      → Paired (after_renewal domains bundle ∷ before_renewal domains ∷ calls)
  failed :
      {calls : List HookCall} (domains : List String) (e : AcmeError)
      → Paired calls
      → Paired (on_error domains e ∷ before_renewal domains ∷ calls)

always : {S A : Type 0} (P : S → Type 0) (r : Outcome A) (s : S) → P s → After (λ _. P) P r s
always P (ok a) s h = h
always P (err e) s h = h
always P (panic m) s h = h

module _ {S : Type 0} where
  record Calls (P : List HookCall → Type 0) (s : Renewals S) : Type 0 where
    holds : P s.calls

  module _ {P : List HookCall → Type 0} where
    on_world-Calls : {A : Type 0} (m : Io A) → Keeps (Calls P) (on_world {S = S} m)
    on_world-Calls m = record { run = λ s h. always (Calls P) _ _ (record { holds = h.holds }) }

    on_store-Calls : {A : Type 0} (m : Act S A) → Keeps (Calls P) (on_store m)
    on_store-Calls m = record { run = λ s h. always (Calls P) _ _ (record { holds = h.holds }) }

  call-Calls :
      {P Q : List HookCall → Type 0} (b : Bool) (c : HookCall)
      → (b ≡ true → (calls : List HookCall) → P calls → Q (c ∷ calls))
      → (b ≡ false → (calls : List HookCall) → P calls → Q calls)
      → Triple (Calls P) (call {S = S} b c) (λ _. Calls Q) Anything
  call-Calls true c told untold = record { run = λ s h. record { holds = told refl _ h.holds } }
  call-Calls false c told untold = record { run = λ s h. record { holds = untold refl _ h.holds } }

-- what the calls are while a renewal runs
abbrev Running : Bool → List String → List HookCall → Type 0
Running has_hook domains calls = elim has_hook [
  | true ↦ (before : List HookCall) × (calls ≡ before_renewal domains ∷ before) × Paired before
  | false ↦ Paired calls
]

opened :
    (h : Bool) (domains : List String)
    → h ≡ true
    → (calls : List HookCall) → Paired calls
    → Running h domains (before_renewal domains ∷ calls)
opened true domains e calls pairs = (calls, refl, pairs)
opened false domains e calls pairs = cc

unhooked :
    (h : Bool) (domains : List String)
    → h ≡ false
    → (calls : List HookCall) → Paired calls
    → Running h domains calls
unhooked true domains e calls pairs = cc
unhooked false domains e calls pairs = pairs

closed :
    (h : Bool) (domains : List String) (c : HookCall)
    → ((calls : List HookCall) → Paired calls → Paired (c ∷ before_renewal domains ∷ calls))
    → h ≡ true
    → (calls : List HookCall) → Running h domains calls
    → Paired (c ∷ calls)
closed true domains c close e calls (before, same, pairs) =
    subst (λ cs. Paired (c ∷ cs)) (sym same) (close before pairs)
closed false domains c close e calls r = cc

unclosed :
    (h : Bool) (domains : List String)
    → h ≡ false
    → (calls : List HookCall) → Running h domains calls
    → Paired calls
unclosed true domains e calls r = cc
unclosed false domains e calls r = r

module _ {Key S : Type 0} (p : Platform Key) (parsers : Parsers) (codec : Codec)
    (backend : Backend S) (client : Client Key) (settings : Settings) where
  renew-Calls :
      (P : List HookCall → Type 0) (domains : List String)
      → Keeps (Calls P) (renew p parsers codec backend client settings domains)
  unfolding renew
  renew-Calls P domains = bind_rule (on_world-Calls _) (λ _.
      bind_rule (on_world-Calls _)
        (λ bundle. bind_rule (on_store-Calls _) (λ _. record { run = λ s h. h })))

  renew_due-Paired :
      (domains : List String)
      → Triple
          (Calls Paired)
          (renew_due p parsers codec backend client settings domains)
          (λ _. Calls Paired)
          Anything
  unfolding renew_due
  renew_due-Paired domains =
      let h = settings.has_hook in
      bind_rule (call-Calls h _ (opened h domains) (unhooked h domains)) (λ _.
        catch_rule {Q = λ _. Calls (Running h domains)} {E = Calls (Running h domains)}
          (renew-Calls (Running h domains) domains)
          (λ bundle.
            call-Calls h _ (closed h domains _ (λ _. renewed domains bundle)) (unclosed h domains))
          (λ e. call-Calls h _ (closed h domains _ (λ _. failed domains e)) (unclosed h domains)))

  visit-Paired :
      (domains : List String)
      → Triple
          (Calls Paired)
          (visit p parsers codec backend client settings domains)
          (λ _. Calls Paired)
          Anything
  unfolding visit
  visit-Paired domains =
      catch_rule {Q = λ _. Calls Paired} {E = Calls Paired} (on_store-Calls _)
        (λ due. if_rule due (λ _. renew_due-Paired domains) (λ _. record { run = λ s h. h }))
        (λ e. record { run = λ s h. h })

  round-Calls :
      (domains_list : List (List String))
      → Triple
          (Calls Paired)
          (round p parsers codec backend client settings domains_list)
          (λ _. Calls Paired)
          Anything
  unfolding round
  round-Calls [] = record { run = λ s h. h }
  round-Calls (domains ∷ rest) = bind_rule (visit-Paired domains) (λ _. round-Calls rest)

  -- After a round that returns, from calls that are paired, they are paired: each renewal that a hook
  -- was told of has ended in one further call for the same domains, of success or of failure.
  pub round-Paired :
      (domains_list : List (List String)) (s t : Renewals S)
      → Paired s.calls
      → round p parsers codec backend client settings domains_list s ≡ (ok tt, t)
      → Paired t.calls
  round-Paired domains_list s t pairs e =
      (returned (round-Calls domains_list) s (record { holds = pairs }) tt t e).holds

  record Stored (b : CertificateBundle) (s : Renewals S) : Type 0 where
    before : S
    saves : save codec backend b before ≡ (ok tt, s.store)

  saved :
      (b : CertificateBundle) (s : Renewals S) (r : Outcome (Unit {0})) (t : S)
      → save codec backend b s.store ≡ (r, t)
      → After (λ _. Stored b) Anything r (record s { store = t })
  saved b s (ok tt) t e = record { before = s.store; saves = e }
  saved b s (err x) t e = tt
  saved b s (panic m) t e = tt

  renew-Stored :
      (domains : List String)
      → Triple Anything (renew p parsers codec backend client settings domains) Stored Anything
  unfolding renew
  renew-Stored domains = bind_rule (any_rule _) (λ _. bind_rule (any_rule _) (λ bundle.
      bind_rule {Q = λ _. Stored bundle} (record { run = λ s h. saved bundle s _ _ refl })
        (λ _. record { run = λ s h. h })))

  -- For a codec that reads back what it writes and a backend that is a map: a bundle that `renew`
  -- returns is loaded from the store by its domains, whenever the backend loads their key.
  pub renew-load :
      (reads_back : (b : CertificateBundle) (bytes : List ℕ)
        → Codec.to_vec codec b ≡ done bytes
        → Codec.from_slice codec bytes ≡ done b)
      (view : S → String → Option (List ℕ)) (laws : IsMap backend view) (domains : List String)
      (s t : Renewals S) (b : CertificateBundle) (o : Option (List ℕ)) (u : S)
      → renew p parsers codec backend client settings domains s ≡ (ok b, t)
      → Backend.load backend (key_for_domains b.domains) t.store ≡ (ok o, u)
      → Certificates.load codec backend b.domains t.store ≡ (ok (some b), u)
  renew-load reads_back view laws domains s t b o u e loaded =
      let stored = returned (renew-Stored domains) s tt b t e in
      load-save codec backend reads_back view laws b stored.before t.store u o stored.saves loaded
