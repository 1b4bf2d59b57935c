-- ===== src/Cli/Untouched.antt =====
-- What `acmex renew` of src/cli/commands/renew.rs leaves as it was.
use acmex.Base.{
  ℕ, String, ◌≡◌, refl, ap, ◌∙◌, ◌==◌, Bool, true, false, Option, none, some, List, [], ◌∷◌,
  if◌then◌else◌,
}
use acmex.Base.Dict.{get, get-insert}
use acmex.Error.{AcmeError}
use acmex.Act.{Outcome, ok, err, panic, or_raise}
use acmex.Act.Triple.{Keeps, After, keeps_rules, Keeps-bind, Keeps-pure, After-same}
use acmex.Net.{Io}
use acmex.Platform.{Platform}
use acmex.Cli.Machine.{
  Machine, online, exists, read, write, fs_call, copy_file, now, next_fault, next_time,
}
use acmex.Cli.Pem.{Tools, parse_not_after}
use acmex.Cli.Renew.{handle_renew, replace_certificate, replace_if_due, back_up_key, backup_path}

module _ (path : String) (o : Option (List ℕ)) where
  abbrev Held : Machine → Type 0
  Held s = get s.files path ≡ o

  unmoved {ℓ} : {A : Type ℓ} (r : Outcome A) (s : Machine) → Held s → After (λ _. Held) Held r s
  unmoved (ok a) s h = h
  unmoved (err e) s h = h
  unmoved (panic m) s h = h

  online-Held {ℓ} : {A : Type ℓ} (m : Io A) → Keeps Held (online m)
  online-Held m = record {
    run = λ s h. unmoved (m s.world).0 (record s { world = (m s.world).1 }) h;
  }

  fs_call-Held : Keeps Held fs_call
  unfolding fs_call
  fs_call-Held = record { run = λ s h. called s.faults s h }
    where
      called :
          (faults : List (Option String)) (s : Machine)
          → Held s
          → let (a, s') = next_fault faults s in
            After (λ _. Held) Held (or_raise a AcmeError.io s').0 (or_raise a AcmeError.io s').1
      called [] s h = h
      called (none ∷ rest) s h = h
      called (some e ∷ rest) s h = h

  now-Held : Keeps Held now
  unfolding now
  now-Held = record { run = λ s h. timed s.clock s h }
    where
      timed : (ts : List ℕ) (s : Machine) → Held s → Held (next_time ts s).1
      timed [] s h = h
      timed (time ∷ rest) s h = h

  read-Held : (from : String) → Keeps Held (read from)
  unfolding read
  read-Held from = search (keeps_rules, fs_call-Held)

  exists-Held : (from : String) → Keeps Held (exists from)
  unfolding exists
  exists-Held from = search keeps_rules

  write-Held : (to : String) (bytes : List ℕ) → (to == path) ≡ false → Keeps Held (write to bytes)
  unfolding write
  write-Held to bytes e = Keeps-bind fs_call-Held (λ _. record {
    run = λ s h.
        get-insert s.files to path bytes
        ∙ ap (λ b. if b then some bytes else get s.files path) e
        ∙ h;
  })

  copy_file-Held : (from to : String) → (to == path) ≡ false → Keeps Held (copy_file from to)
  unfolding copy_file
  copy_file-Held from to e = Keeps-bind (read-Held from) (λ bytes. write-Held to bytes e)

  module _ {Key : Type 0} (p : Platform Key) (t : Tools Key) (dir : String)
      (apart : (time : ℕ)
        → ((backup_path p t dir "certificate" time == path) ≡ false)
          × ((backup_path p t dir "private_key" time == path) ≡ false)) where
    back_up_key-Held :
        (b : Bool) (from : String) (time : ℕ)
        → Keeps Held (back_up_key p t b from (backup_path p t dir "private_key" time))
    back_up_key-Held false from time = Keeps-pure tt
    back_up_key-Held true from time = copy_file-Held from _ (apart time).1

    replace_certificate-Held :
        (domains : List String) → Keeps Held (replace_certificate p t domains dir)
    unfolding replace_certificate
    replace_certificate-Held domains = Keeps-bind fs_call-Held (λ _. Keeps-bind now-Held (λ time.
        Keeps-bind (copy_file-Held _ _ (apart time).0) (λ _.
          Keeps-bind (exists-Held _) (λ b.
            Keeps-bind (back_up_key-Held b _ time) (λ _. search (keeps_rules, online-Held))))))

    replace_if_due-Held :
        (b : Bool) (domains : List String) → Keeps Held (replace_if_due p t b domains dir)
    replace_if_due-Held true domains = Keeps-pure tt
    replace_if_due-Held false domains = replace_certificate-Held domains

    handle_renew-Held :
        (domains : List String) (force : Bool) → Keeps Held (handle_renew p t domains force dir)
    unfolding handle_renew parse_not_after
    handle_renew-Held domains force =
        search (keeps_rules, read-Held, now-Held, replace_if_due-Held) depth 20

-- However a renewal ends, a file that is neither of its two backups is as it was: the certificate
-- and the key among them are not replaced.
pub handle_renew-untouched :
    {Key : Type 0} (p : Platform Key) (t : Tools Key) (dir path : String)
    → ((time : ℕ)
        → ((backup_path p t dir "certificate" time == path) ≡ false)
          × ((backup_path p t dir "private_key" time == path) ≡ false))
    → (domains : List String) (force : Bool) (s : Machine)
    → get (handle_renew p t domains force dir s).1.files path ≡ get s.files path
handle_renew-untouched p t dir path apart domains force s =
    let out = handle_renew p t domains force dir s in
    After-same (Held path (get s.files path)) out.0 out.1
      ((handle_renew-Held path (get s.files path) p t dir apart domains force).run s refl)
