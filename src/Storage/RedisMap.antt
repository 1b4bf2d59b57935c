-- ===== src/Storage/RedisMap.antt =====
-- The backend of src/storage/redis.rs as the map that the code on backends relies on, whatever calls fail.
use acmex.Base.{
  ℕ, String, ◌<>◌, ◌≡◌, refl, sym, ap, ◌∙◌, subst, Bool, true, Bool-cases, inl, inr, ◌==◌, eq_iff,
  Option, none, some, List, [], ◌∷◌, if◌then◌else◌, arith,
}
use acmex.Base.Dict.{Dict, get, keys, get-insert, get-remove}
use acmex.Error.{AcmeError}
use acmex.Act.{or_raise}
use acmex.Act.Triple.{Keeps, Triple, After, bind_rule}
use acmex.Storage.Backend.{Backend, IsMap, IsListed, contains}
use acmex.Storage.Memory.{kept}
use acmex.Storage.Redis.{RedisServer, command, next_fault, matched, redis_storage}
use text.Mathlib.Text.{starts_with}

module _ (matches : String → String → Bool) where
  listed :
      (entries : Dict (List ℕ)) (pattern_ k : String) (v : List ℕ)
      → get entries k ≡ some v
      → matches pattern_ k ≡ true
      → contains (matched matches pattern_ (keys entries)) k ≡ true
  unfolding get keys
  listed [] pattern_ k v e h = ground (arith, e)
  listed ((j, u) ∷ entries) pattern_ k v e h = elim (Bool-cases (j == k)) [
    | inl same ↦
        rw (subst (λ i. matches pattern_ i ≡ true) (sym ((eq_iff j k).0 same)) h, same) refl
    | inr other ↦ kept (matches pattern_ j) j k _ (
        listed entries pattern_ k v
          (subst (λ b. (if b then some u else get entries k) ≡ some v) other e) h)
  ]

  module _ (s : RedisServer) where
    Same : RedisServer → Type 0
    Same r = (j : String) → get r.entries j ≡ get s.entries j

    command-Same : (what : String) → Keeps Same (command what)
    unfolding command Same
    command-Same what = record { run = λ r h. called r.faults r h }
      where
        called :
            (faults : List (Option String)) (r : RedisServer)
            → Same r
            → let (a, r') = next_fault faults r in
              let out = or_raise a (λ e. AcmeError.storage (what <> e)) r' in
              After (λ _. Same) Same out.0 out.1
        called [] r h = h
        called (none ∷ rest) r h = h
        called (some e ∷ rest) r h = h

    stores-map :
        (k : String) (v : List ℕ)
        → Triple Same
            (Backend.store (redis_storage matches) k v)
            (λ _ t. (j : String) → get t.entries j ≡ (if k == j then some v else get s.entries j))
            Same
    unfolding redis_storage Same
    stores-map k v = bind_rule (command-Same _) (λ _. bind_rule (command-Same _) (λ _. record {
      run = λ r h j. get-insert r.entries k j v ∙ ap (λ o. if k == j then some v else o) (h j);
    }))

    loads-map :
        (k : String)
        → Triple Same
            (Backend.load (redis_storage matches) k)
            (λ o t. (o ≡ get s.entries k) × ((j : String) → get t.entries j ≡ get s.entries j))
            Same
    unfolding redis_storage Same
    loads-map k =
        bind_rule (command-Same _)
          (λ _. bind_rule (command-Same _) (λ _. record { run = λ r h. (h k, h) }))

    deletes-map :
        (k : String)
        → Triple Same
            (Backend.delete (redis_storage matches) k)
            (λ _ t. (j : String) → get t.entries j ≡ (if k == j then none else get s.entries j))
            Same
    unfolding redis_storage Same
    deletes-map k = bind_rule (command-Same _) (λ _. bind_rule (command-Same _) (λ _. record {
      run = λ r h j. get-remove r.entries k j ∙ ap (λ o. if k == j then none else o) (h j);
    }))

    lists-map :
        (prefix : String)
        → ((k : String) → starts_with k prefix ≡ true → matches (prefix <> "*") k ≡ true)
        → Triple Same
            (Backend.list (redis_storage matches) prefix)
            (λ ks t.
              ((j : String) → get t.entries j ≡ get s.entries j)
              × ((j : String) (v : List ℕ)
                  → get s.entries j ≡ some v
                  → starts_with j prefix ≡ true
                  → contains ks j ≡ true))
            Same
    unfolding redis_storage Same
    lists-map prefix glob = bind_rule (command-Same _) (λ _. bind_rule (command-Same _) (λ _.
        record {
          run = λ r h.
              (h, λ j v e begins. listed r.entries (prefix <> "*") j v (h j ∙ e) (glob j begins));
        }))

  -- The Redis backend meets the contract of a map, although each of its calls may fail, given that
  -- `KEYS` with one of the program's prefixes and a star matches each key that begins with the prefix.
  pub redis_storage-IsMap :
      ((prefix k : String)
        → IsListed prefix
        → starts_with k prefix ≡ true
        → matches (prefix <> "*") k ≡ true)
      → IsMap (redis_storage matches) (λ s. get s.entries)
  unfolding Same
  redis_storage-IsMap glob = record {
    stores = λ k v s. (stores-map s k v).run s (λ j. refl);
    loads = λ k s. (loads-map s k).run s (λ j. refl);
    deletes = λ k s. (deletes-map s k).run s (λ j. refl);
    lists = λ prefix s asked. (lists-map s prefix (λ k. glob prefix k asked)).run s (λ j. refl);
  }
