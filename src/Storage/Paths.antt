-- ===== src/Storage/Paths.antt =====
-- What src/storage/file.rs keeps under a key.
use Prim.Native.Char.{code}
use Prim.Native.String as Text
use acmex.Base.{
  ℕ, String, ◌<>◌, ◌≡◌, refl, sym, ap, subst, ◌∙◌, eqb, Bool, true, false, Bool-cases, inl, inr,
  ◌==◌, eq_iff, Option, none, some, List, [], ◌∷◌, if◌then◌else◌,
}
use acmex.Base.Dict.{Dict, get, insert, get-insert}
use acmex.Error.{AcmeError}
use acmex.Act.{or_raise, ok}
use acmex.Act.Triple.{Triple, After, Anything, bind_rule, returned}
use acmex.Storage.Backend.{Backend}
use acmex.Storage.Files.{
  Disk, file_storage, ending, key_path, sanitized, fs_call, next_fault, read_found,
}
use text.Mathlib.TextLemmas.{append_cancel_right}

unfoldable pub has_slash : String → Bool
has_slash Text.[] = false
has_slash (Text.◌∷◌ c s) = let rest = has_slash s in if eqb (code c) 47 then true else rest

sanitized-whole : (s : String) → has_slash s ≡ false → sanitized s ≡ s
unfolding has_slash sanitized
sanitized-whole Text.[] h = refl
sanitized-whole (Text.◌∷◌ c s) h = elim (Bool-cases (eqb (code c) 47)) [
  | inl slash ↦ let wrong = rw slash at h in cc
  | inr other ↦
      let rest : has_slash s ≡ false = rw other at h in
      rw other (ap (λ t. Text.◌∷◌ c t) (sanitized-whole s rest))
]

key_path-whole : (k : String) → has_slash k ≡ false → key_path k ≡ k <> ".bin"
unfolding key_path
key_path-whole k h = ap (λ s. s <> ".bin") (sanitized-whole k h)

same_path :
    (k j : String)
    → has_slash k ≡ false
    → has_slash j ≡ false
    → (key_path k == key_path j) ≡ (k == j)
same_path k j hk hj = elim (Bool-cases (k == j)) [
  | inl same ↦
      rw ((eq_iff k j).0 same, (eq_iff (key_path j) (key_path j)).1 refl, (eq_iff j j).1 refl) refl
  | inr other ↦ elim (Bool-cases (key_path k == key_path j)) [
    | inl clash ↦
        let e = append_cancel_right k j ".bin" (
          sym (key_path-whole k hk)
          ∙ (eq_iff (key_path k) (key_path j)).0 clash
          ∙ key_path-whole j hj) in
        let wrong = (eq_iff k j).1 e in cc
    | inr apart ↦ apart ∙ sym other
  ]
]

-- The calls of the file system leave the files alone.
fs_call-files :
    (what : String) (fs : Dict (List ℕ))
    → Triple (λ d. d.files ≡ fs) (fs_call what) (λ _ d. d.files ≡ fs) Anything
unfolding fs_call
fs_call-files what fs = record { run = λ d h. faulty d.faults d h }
  where
    raised :
        (o : Option String) (rest : List (Option String)) (d : Disk)
        → d.files ≡ fs
        → let out =
            or_raise {S = Disk}
              (ending o)
              (λ e. AcmeError.storage (what <> e))
              (record d { faults = rest }) in
          After (λ _ d. d.files ≡ fs) Anything out.0 out.1
    raised none rest d h = h
    raised (some e) rest d h = tt

    faulty :
        (faults : List (Option String)) (d : Disk)
        → d.files ≡ fs
        → let (a, d') = next_fault faults d in
          let out = or_raise {S = Disk} a (λ e. AcmeError.storage (what <> e)) d' in
          After (λ _ d. d.files ≡ fs) Anything out.0 out.1
    faulty [] d h = h
    faulty (o ∷ rest) d h = raised o rest d h

store-files :
    (k : String) (v : List ℕ) (fs : Dict (List ℕ))
    → Triple
        (λ d. d.files ≡ fs)
        (Backend.store file_storage k v)
        (λ _ d. d.files ≡ insert fs (key_path k) v)
        Anything
unfolding file_storage
store-files k v fs = bind_rule (fs_call-files _ fs) (λ _.
    bind_rule (record { run = λ d h. h })
      (λ _.
        bind_rule (fs_call-files _ fs)
          (λ _. record { run = λ d h. ap (λ f. insert f (key_path k) v) h })))

load-files :
    (k : String) (fs : Dict (List ℕ))
    → Triple
        (λ d. d.files ≡ fs)
        (Backend.load file_storage k)
        (λ o _. o ≡ get fs (key_path k))
        Anything
unfolding file_storage
load-files k fs = record {
  run = λ d h.
      subst
        (λ f.
          let out = read_found (get f (key_path k)) d in
          After (λ o _. o ≡ get fs (key_path k)) Anything out.0 out.1)
        (sym h) (found (get fs (key_path k)) d h);
}
  where
    found :
        (o : Option (List ℕ)) (d : Disk)
        → d.files ≡ fs
        → After (λ r _. r ≡ o) Anything (read_found o d).0 (read_found o d).1
    found none d h = refl
    found (some bytes) d h =
        (bind_rule {Q = λ _ d. d.files ≡ fs} (fs_call-files "Failed to read storage: " fs)
            (λ _. record { run = λ s e. refl })).run
          d h

-- On keys without a slash the files are a map: where a value was stored and some key is loaded, it is
-- the value under its own key, and under another what was there before.
pub load-store_file :
    (k j : String) (v : List ℕ) (s t u : Disk) (o : Option (List ℕ))
    → has_slash k ≡ false
    → has_slash j ≡ false
    → Backend.store file_storage k v s ≡ (ok tt, t)
    → Backend.load file_storage j t ≡ (ok o, u)
    → o ≡ (if k == j then some v else get s.files (key_path j))
load-store_file k j v s t u o hk hj stored loaded =
    let after = returned (store-files k v s.files) s refl tt t stored in
    returned (load-files j (insert s.files (key_path k) v)) t after o u loaded
    ∙ get-insert s.files (key_path k) (key_path j) v
    ∙ ap (λ b. if b then some v else get s.files (key_path j)) (same_path k j hk hj)
