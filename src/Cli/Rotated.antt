-- ===== src/Cli/Rotated.antt =====
-- What `acmex account rotate-key` of src/cli/commands/account.rs has done where it reports success.
use acmex.Base.{
  ℕ, String, ◌≡◌, refl, sym, subst, ap, ◌∙◌, Bool, false, some, List, eq_iff, if◌then◌else◌,
}
use acmex.Base.Dict.{get, get-insert}
use acmex.Base.Split.{has_dot}
use acmex.Account.KeyRollover.{Changed, execute-After}
use acmex.Account.Object.{Account}
use acmex.Act.{Act, Outcome, ok, err, panic}
use acmex.Act.Triple.{Triple, After, Anything, bind_rule, any_rule, weaken_rule, returned}
use acmex.Net.{World, Io}
use acmex.Platform.{Platform}
use acmex.Protocol.Request.{Manager}
use acmex.Cli.Account.{handle_rotate_key, manager_for}
use acmex.Client.Config.{managers}
use acmex.Cli.Credentials.{save_to_file, load_from_file}
use acmex.Cli.Machine.{Machine, online}
use acmex.Cli.Pem.{Tools}
use acmex.Cli.Placeholder.{write-IsAt}

carried :
    {A : Type 0} (Q : A → World → Type 0) (r : Outcome A) (w : World) (s : Machine)
    → After Q Anything r w
    → After (λ a u. Q a u.world) Anything r (record s { world = w })
carried Q (ok a) w s h = h
carried Q (err e) w s h = tt
carried Q (panic m) w s h = tt

online_rule :
    {A : Type 0} {m : Io A} {Q : A → World → Type 0}
    → Triple Anything m Q Anything
    → Triple (Anything {S = Machine}) (online m) (λ a u. Q a u.world) Anything
online_rule {m} {Q} t = record {
  run = λ s h. carried Q (m s.world).0 (m s.world).1 s (t.run s.world tt);
}

module _ {Key : Type 0} (p : Platform Key) (t : Tools Key)
    (no_dot : (bytes : List ℕ) → has_dot (p.base64url bytes) ≡ false) where
  -- The new file holds the new key. The last request was signed by the key in the old file, with the
  -- new key's signature as its payload.
  pub record Rotated (key_path path : String) (start s : Machine) : Type 0 where
    pub m : Manager Key
    pub new_key : Key
    pub account_url : String
    pub account : Account
    pub loaded : (u : Machine) × (load_from_file p t key_path start ≡ (ok m.key, u))
    pub changed : Changed p m new_key no_dot account_url account s.world.log
    pub held : get s.files path ≡ some (p.utf_8 (t.serialize_pem new_key))

  abbrev IsLoaded : String → Machine → Key → Type 0
  IsLoaded key_path start key = (u : Machine) × (load_from_file p t key_path start ≡ (ok key, u))

  load_rule :
      (key_path : String) (start : Machine)
      → Triple
          (λ s. s ≡ start)
          (load_from_file p t key_path)
          (λ key _. IsLoaded key_path start key)
          Anything
  load_rule key_path start = record {
    run = λ s e.
        subst
          (λ v.
            After (λ key _. IsLoaded key_path start key) Anything (load_from_file p t key_path v).0
              (load_from_file p t key_path v).1)
          (sym e) (noted (load_from_file p t key_path start).0 _ refl);
  }
    where
      noted :
          (r : Outcome Key) (u : Machine)
          → load_from_file p t key_path start ≡ (r, u)
          → After (λ key _. IsLoaded key_path start key) Anything r u
      noted (ok key) u h = (u, h)
      noted (err e) u h = tt
      noted (panic m) u h = tt

  -- the managers of a command sign with its key
  manager_rule :
      (key : Key) (url : String)
      → Triple Anything (manager_for p t key url) (λ m _. m.key ≡ key) Anything
  unfolding manager_for managers
  manager_rule key url =
      bind_rule (any_rule _) (λ _. bind_rule (any_rule _) (λ d. record { run = λ w h. refl }))

  -- a fact that no action changes
  with_fact :
      {A : Type 0} {Q : A → Machine → Type 0} {m : Act Machine A} {B : Type 0}
      → Triple Anything m Q Anything
      → Triple (λ _. B) m (λ a u. B × Q a u) Anything
  with_fact {Q} {m} {B} r = record { run = λ s b. beside b (m s).0 (m s).1 (r.run s tt) }
    where
      beside :
          B
          → (r : Outcome _) (u : Machine) → After Q Anything r u
          → After (λ a u. B × Q a u) Anything r u
      beside b (ok a) u h = (b, h)
      beside b (err e) u h = tt
      beside b (panic x) u h = tt

  saved :
      (start : Machine) (m : Manager Key) (key : Key) (url key_path path : String) (a : Account)
      → Triple
          (λ s. IsLoaded key_path start m.key × Changed p m key no_dot url a s.world.log)
          (save_to_file p t key path)
          (λ _. Rotated key_path path start)
          Anything
  unfolding save_to_file
  saved start m key url key_path path a = record {
    run = λ s h.
        let bytes = p.utf_8 (t.serialize_pem key) in
        (weaken_rule
            (λ _ u at. record {
              m = m;
              new_key = key;
              account_url = url;
              account = a;
              loaded = h.0;
              changed = subst (λ w. Changed p m key no_dot url a w.log) (sym at.1) h.1;
              held =
                  ap (λ f. get f path) at.0
                  ∙ get-insert s.files path path bytes
                  ∙ ap (λ b. if b then some bytes else get s.files path)
                      ((eq_iff path path).1 refl);
            })
            (write-IsAt s.files s.world path bytes)).run
          s (refl, refl);
  }

  rotate_rule :
      (key_path new_key_path : String) (prod : Bool) (start : Machine)
      → Triple
          (λ s. s ≡ start)
          (handle_rotate_key p t key_path new_key_path prod)
          (λ _. Rotated key_path new_key_path start)
          Anything
  unfolding handle_rotate_key
  rotate_rule key_path new_key_path prod start = bind_rule (load_rule key_path start) (λ key.
      bind_rule
        (weaken_rule {R = λ m _. IsLoaded key_path start m.key}
          (λ m u h. subst (IsLoaded key_path start) (sym h.1) h.0)
          (with_fact (online_rule (manager_rule key _))))
        (λ m. bind_rule (weaken_rule (λ a u h. h.0) (with_fact (any_rule _))) (λ account.
          bind_rule (weaken_rule (λ k u h. h.0) (with_fact (any_rule _))) (λ new_key.
            bind_rule (with_fact (online_rule (execute-After p m new_key no_dot account.id)))
              (λ a. saved start m new_key account.id key_path new_key_path a)))))

  -- Where base64 writes no dot and a rotation succeeds, the last request was signed by the key of the
  -- old file and has a payload that the new key signed, the server has answered it with an account, and
  -- the new file holds that new key.
  pub handle_rotate_key-Rotated :
      (key_path new_key_path : String) (prod : Bool) (s s' : Machine)
      → handle_rotate_key p t key_path new_key_path prod s ≡ (ok tt, s')
      → Rotated key_path new_key_path s s'
  handle_rotate_key-Rotated key_path new_key_path prod s s' e =
      returned (rotate_rule key_path new_key_path prod s) s refl tt s' e
