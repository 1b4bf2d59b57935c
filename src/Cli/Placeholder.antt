-- ===== src/Cli/Placeholder.antt =====
-- What `acmex obtain` of src/cli/commands/obtain.rs has done where it reports success.
use acmex.Base.{ℕ, String, ◌≡◌, refl, ap, Bool, Option, none, some, List, [], ◌∷◌}
use acmex.Base.Dict.{Dict, insert}
use acmex.Error.{AcmeError}
use acmex.Act.{ok, or_raise}
use acmex.Act.Triple.{Triple, After, Anything, bind_rule, refuse_rule, lift_rule, if_rule, returned}
use acmex.Config.Load.{Surroundings}
use acmex.Net.{World}
use acmex.Cli.Machine.{Machine, fs_call, write, create_parent, has_parent, next_fault}
use acmex.Cli.Obtain.{handle_obtain, placeholder_certificate, placeholder_key}

abbrev pub IsAt : Dict (List ℕ) → World → Machine → Type 0
IsAt fs w s = (s.files ≡ fs) × (s.world ≡ w)

module _ (fs : Dict (List ℕ)) (w : World) where
  pub fs_call-IsAt : Triple (IsAt fs w) fs_call (λ _. IsAt fs w) Anything
  unfolding fs_call
  fs_call-IsAt = record { run = λ s h. called s.faults s h }
    where
      called :
          (faults : List (Option String)) (s : Machine)
          → IsAt fs w s
          → let (a, s') = next_fault faults s in
            After
              (λ _. IsAt fs w)
              Anything
              (or_raise a AcmeError.io s').0
              (or_raise a AcmeError.io s').1
      called [] s h = h
      called (none ∷ rest) s h = h
      called (some e ∷ rest) s h = tt

  create_parent-IsAt :
      (path : String) → Triple (IsAt fs w) (create_parent path) (λ _. IsAt fs w) Anything
  unfolding create_parent
  create_parent-IsAt path =
      if_rule (has_parent path) (λ _. fs_call-IsAt) (λ _. record { run = λ s h. h })

  pub write-IsAt :
      (path : String) (bytes : List ℕ)
      → Triple (IsAt fs w) (write path bytes) (λ _. IsAt (insert fs path bytes) w) Anything
  unfolding write
  write-IsAt path bytes =
      bind_rule fs_call-IsAt (λ _. record { run = λ s h. (ap (λ f. insert f path bytes) h.0, h.1) })

handle_obtain-IsAt :
    (fs : Dict (List ℕ)) (w : World) (env : Surroundings) (utf_8 : String → List ℕ)
    (domains : List String) (email challenge_type cert_path key_path : String) (prod : Bool)
    (dns_provider : Option String)
    → Triple
        (IsAt fs w)
        (handle_obtain env utf_8 domains email challenge_type cert_path key_path prod dns_provider)
        (λ _.
          IsAt
            (insert
              (insert fs cert_path (utf_8 placeholder_certificate))
              key_path
              (utf_8 placeholder_key))
            w)
        Anything
unfolding handle_obtain
handle_obtain-IsAt fs w env utf_8 domains email challenge_type cert_path key_path prod
      dns_provider =
    bind_rule (refuse_rule (λ s h. tt) _ _) (λ _. bind_rule (refuse_rule (λ s h. tt) _ _) (λ _.
      bind_rule (lift_rule (λ s h. tt) _) (λ _. bind_rule (create_parent-IsAt fs w cert_path) (λ _.
        bind_rule (create_parent-IsAt fs w key_path) (λ _.
          bind_rule (write-IsAt fs w cert_path (utf_8 placeholder_certificate)) (λ _.
            write-IsAt (insert fs cert_path (utf_8 placeholder_certificate)) w key_path
              (utf_8 placeholder_key)))))))

-- Where a certificate is said to be obtained, nothing was sent to anyone, and the files are as before
-- but for a placeholder at the path of the certificate and one at that of the key.
pub handle_obtain-offline :
    (env : Surroundings) (utf_8 : String → List ℕ) (domains : List String)
    (email challenge_type cert_path key_path : String) (prod : Bool) (dns_provider : Option String)
    (s s' : Machine)
    → handle_obtain env utf_8 domains email challenge_type cert_path key_path prod dns_provider s
      ≡ (ok tt, s')
    → (s'.files
        ≡ insert
            (insert s.files cert_path (utf_8 placeholder_certificate))
            key_path
            (utf_8 placeholder_key))
      × (s'.world ≡ s.world)
handle_obtain-offline env utf_8 domains email kind cert_path key_path prod dns_provider s s' e =
    returned
      (handle_obtain-IsAt s.files s.world env utf_8 domains email kind cert_path key_path prod
        dns_provider)
      s (refl, refl) tt s' e
