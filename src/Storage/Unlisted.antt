-- ===== src/Storage/Unlisted.antt =====
-- What a migration of src/storage/migration.rs finds in the directory of src/storage/file.rs: the listed
-- names are those of the files, not the keys.
use acmex.Base.{ℕ, String, ◌≡◌, refl, ap, ◌∙◌, Bool, true, false, none, List, [], ◌∷◌, All}
use acmex.Base.Dict.{get, keys}
use acmex.Act.{Act, resume, ok, catch, ◌>>=◌}
use acmex.Storage.Backend.{Backend}
use acmex.Storage.Files.{
  Disk, file_storage, list_dir, key_path, fs_call, entries_from, kept_name, read_found,
}
use acmex.Storage.Migration.{Pair, migrate, copy_all, copy, copied, starts_with-empty}

-- Where no call of the file system fails
fs_call-done : (what : String) (d : Disk) → d.faults ≡ [] → fs_call what d ≡ (ok tt, d)
unfolding fs_call
fs_call-done what d e = rw e refl

then_at :
    {S A B : Type 0} (m : Act S A) (f : A → Act S B) (s s' : S) (a : A)
    → m s ≡ (ok a, s')
    → (m >>= f) s ≡ f a s'
unfolding ◌>>=◌
then_at m f s s' a e = ap (λ out. resume out.0 f out.1) e

entries_from-done :
    (names : List String) (d : Disk) → d.faults ≡ [] → entries_from "" names d ≡ (ok names, d)
unfolding entries_from
entries_from-done [] d e = then_at _ _ d d tt (fs_call-done _ d e)
entries_from-done (name ∷ names) d e =
    then_at _ _ d d tt (fs_call-done _ d e)
    ∙ then_at _ _ d d names (entries_from-done names d e)
    ∙ ap (λ b. (ok (kept_name b name names), d)) (starts_with-empty name)

abbrev listed : Bool → List String → List String
listed true names = names
listed false names = []

list_dir-done :
    (b : Bool) (names : List String) (d : Disk)
    → d.faults ≡ []
    → list_dir "" b names d ≡ (ok (listed b names), d)
list_dir-done true names d e = then_at _ _ d d tt (fs_call-done _ d e) ∙ entries_from-done names d e
list_dir-done false names d e = refl

list-done :
    (d : Disk)
    → d.faults ≡ []
    → Backend.list file_storage "" d ≡ (ok (listed d.has_dir (keys d.files)), d)
unfolding file_storage
list-done d e = list_dir-done d.has_dir (keys d.files) d e

load-none :
    (name : String) (d : Disk)
    → get d.files (key_path name) ≡ none
    → Backend.load file_storage name d ≡ (ok none, d)
unfolding file_storage
load-none name d e = ap (λ o. read_found o d) e

module _ {D : Type 0} (show_number : ℕ → String) (destination : Backend D) where
  -- A name that leads to no file is passed over, and counts as no failure.
  copy-none :
      (name : String) (failed : ℕ) (s : Pair Disk D)
      → get s.source.files (key_path name) ≡ none
      → copy show_number file_storage destination name failed s ≡ (ok failed, s)
  unfolding copy copied catch
  copy-none name failed s e = rw (load-none name s.source e) refl

  copy_all-none :
      (names : List String) (failed : ℕ) (s : Pair Disk D)
      → All (λ name. get s.source.files (key_path name) ≡ none) names
      → copy_all show_number file_storage destination names failed s ≡ (ok failed, s)
  unfolding copy_all
  copy_all-none [] failed s a = refl
  copy_all-none (name ∷ names) failed s a =
      then_at _ _ s s failed (copy-none name failed s a.0) ∙ copy_all-none names failed s a.1

  listed-All :
      (b : Bool) (names : List String) (P : String → Type 0) → All P names → All P (listed b names)
  listed-All true names P a = a
  listed-All false names P a = tt

  -- A migration from a directory in which no file is named as another one with .bin behind it, and no
  -- call of the file system fails, succeeds and copies nothing, whatever the destination.
  pub migrate-none :
      (s : Pair Disk D)
      → s.source.faults ≡ []
      → All (λ name. get s.source.files (key_path name) ≡ none) (keys s.source.files)
      → migrate show_number file_storage destination s ≡ (ok tt, s)
  unfolding migrate
  migrate-none s quiet a =
      let names = listed s.source.has_dir (keys s.source.files) in
      then_at _ _ s s names
        (ap (λ out. (out.0, record s { source = out.1 })) (list-done s.source quiet))
      ∙ then_at _ _ s s 0
          (copy_all-none names 0 s (listed-All s.source.has_dir (keys s.source.files) _ a))
