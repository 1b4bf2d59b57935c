-- ===== src/Storage/Memory.antt =====
-- src/storage/memory.rs: a hash map as a backend.
use acmex.Base.{
  ℕ, String, ◌≡◌, refl, sym, subst, inl, inr, Bool-cases, Bool, true, false, ◌==◌, eq_iff, some,
  List, [], ◌∷◌, if◌then◌else◌, arith,
}
use acmex.Base.Dict.{Dict, get, insert, remove, keys, get-insert, get-remove}
use acmex.Act.{ok}
use acmex.Storage.Backend.{Backend, IsMap, contains}
use text.Mathlib.Text.{starts_with}

unfoldable pub with_prefix : String → List String → List String
with_prefix prefix [] = []
with_prefix prefix (k ∷ ks) =
    let rest = with_prefix prefix ks in if starts_with k prefix then k ∷ rest else rest

unfoldable pub memory_storage : Backend (Dict (List ℕ))
unfolding with_prefix
memory_storage = record {
  store = λ key value entries. (ok tt, insert entries key value);
  load = λ key entries. (ok (get entries key), entries);
  delete = λ key entries. (ok tt, remove entries key);
  list = λ prefix entries. (ok (with_prefix prefix (keys entries)), entries);
}

-- one more key in front, or not
pub kept :
    (b : Bool) (j k : String) (ks : List String)
    → contains ks k ≡ true
    → contains (if b then j ∷ ks else ks) k ≡ true
kept true j k ks h = ground (arith, h)
kept false j k ks h = h

-- The keys that have a value are listed under every prefix of theirs.
listed :
    (entries : Dict (List ℕ)) (prefix k : String) (v : List ℕ)
    → get entries k ≡ some v
    → starts_with k prefix ≡ true
    → contains (with_prefix prefix (keys entries)) k ≡ true
unfolding get keys with_prefix
listed [] prefix k v e h = ground (arith, e)
listed ((j, u) ∷ entries) prefix k v e h = elim (Bool-cases (j == k)) [
  | inl same ↦
      rw (subst (λ i. starts_with i prefix ≡ true) (sym ((eq_iff j k).0 same)) h, same) refl
  | inr other ↦ kept (starts_with j prefix) j k _ (
      listed entries prefix k v
        (subst (λ b. (if b then some u else get entries k) ≡ some v) other e) h)
]

-- The memory backend meets the contract of a map: storing, loading, deleting and listing do to the
-- value under each key what it asks, and listing finds every key with a value under its prefixes.
pub memory_storage-IsMap : IsMap memory_storage get
unfolding memory_storage
memory_storage-IsMap = record {
  stores = λ k v s j. get-insert s k j v;
  loads = λ k s. (refl, λ j. refl);
  deletes = λ k s j. get-remove s k j;
  lists = λ prefix s asked. (λ j. refl, λ j v e h. listed s prefix j v e h);
}
