-- ===== src/Cli/KeyFiles.antt =====
-- A key that src/account/credentials.rs saves and loads again.
use acmex.Base.{ℕ, String, ◌≡◌, refl, ap, ◌∙◌, some, List, eq_iff, if◌then◌else◌}
use acmex.Base.Dict.{get, insert, get-insert}
use acmex.Act.{ok, done}
use acmex.Act.Triple.{Triple, Anything, bind_rule, returned, raised_rule, ok_or_rule, lifted_rule}
use acmex.Platform.{Platform}
use acmex.Cli.Credentials.{save_to_file, load_from_file, read_to_string, from_pem}
use acmex.Cli.Machine.{Machine, read}
use acmex.Cli.Pem.{Tools}
use acmex.Cli.Placeholder.{fs_call-IsAt, write-IsAt, IsAt}

module _ {Key : Type 0} (p : Platform Key) (t : Tools Key) (path : String) (key : Key)
    (decoded : t.read_utf_8 (p.utf_8 (t.serialize_pem key)) ≡ done (t.serialize_pem key))
    (parsed : t.key_from_pem (t.serialize_pem key) ≡ done key) where
  abbrev stored_key : List ℕ
  stored_key = p.utf_8 (t.serialize_pem key)

  saved :
      (s : Machine)
      → Triple
          (IsAt s.files s.world)
          (save_to_file p t key path)
          (λ _. IsAt (insert s.files path stored_key) s.world)
          Anything
  unfolding save_to_file
  saved s = write-IsAt s.files s.world path stored_key

  module _ (s : Machine) (held : get s.files path ≡ some stored_key) where
    read-stored : Triple (IsAt s.files s.world) (read path) (λ bytes _. bytes ≡ stored_key) Anything
    unfolding read
    read-stored = bind_rule (fs_call-IsAt s.files s.world) (λ _.
        bind_rule {Q = λ found _. found ≡ some stored_key}
          (record { run = λ u h. ap (λ f. get f path) h.0 ∙ held })
          (λ found. ok_or_rule (λ u h. tt) _ found _ (λ a e u h. cc)))

    text-stored :
        Triple
          (IsAt s.files s.world)
          (read_to_string p t path)
          (λ text _. text ≡ t.serialize_pem key)
          Anything
    unfolding read_to_string
    text-stored =
        bind_rule read-stored
          (λ bytes. raised_rule (λ u h. tt) _ (t.read_utf_8 bytes) _ (λ a e u h. cc))

    load-stored : Triple (IsAt s.files s.world) (load_from_file p t path) (λ k _. k ≡ key) Anything
    unfolding load_from_file from_pem
    load-stored =
        bind_rule text-stored
          (λ content. lifted_rule (λ u h. tt) _ _ (λ k e u h. same content k h e))
      where
        same :
            (content : String) (k : Key)
            → content ≡ t.serialize_pem key
            → from_pem p t content ≡ ok k
            → k ≡ key
        same content k h e = let stored : from_pem p t content ≡ ok key = rw (h, parsed) refl in cc

  -- Where a key was saved and a key is loaded from that file, they are the same, given that the
  -- key's PEM text is decoded from its own bytes and the key from its own PEM text.
  pub load_from_file-save_to_file :
      (s s' u : Machine) (k : Key)
      → save_to_file p t key path s ≡ (ok tt, s')
      → load_from_file p t path s' ≡ (ok k, u)
      → k ≡ key
  load_from_file-save_to_file s s' u k stores loads =
      let after = returned (saved s) s (refl, refl) tt s' stores in
      let held =
        ap (λ f. get f path) after.0
        ∙ get-insert s.files path path stored_key
        ∙ ap (λ b. if b then some stored_key else get s.files path) ((eq_iff path path).1 refl) in
      returned (load-stored s' held) s' (refl, refl) k u loads
