-- ===== src/Tests/Storage.antt =====
-- A copy, a sealed value, and a codec of bundles.
use acmex.Base.{
  ℕ, String, ◌≡◌, refl, sym, Bool, ◌==◌, ◌&&◌, eq_iff, true, false, none, some, Option, List, [],
  ◌∷◌, arith, if◌then◌else◌,
}
use acmex.Base.Dict
use acmex.Base.Dict.{Dict, get}
use acmex.Error.{AcmeError}
use acmex.Act.{Answer, err, ok, done, fault, catch, ◌>>=◌}
use acmex.Client.Issue.{CertificateBundle}
use acmex.Storage.Backend.{Backend}
use acmex.Storage.Memory
use acmex.Storage.Memory.{memory_storage, memory_storage-IsMap}
use acmex.Storage.Migration
use acmex.Storage.Migration.{Pair, migrate, migrate-copies}
use acmex.Storage.Redis
use acmex.Storage.Redis.{RedisServer, redis_storage}
use acmex.Storage.RedisMap.{redis_storage-IsMap}
use acmex.Storage.Encrypted
use acmex.Storage.Encrypted.{Aead, IsAead, Sealed, encrypted_storage, load-store}
use acmex.Storage.Certificates.{Codec}

abbrev two_entries : Dict (List ℕ)
two_entries = ("a", 1 ∷ []) ∷ ("b", 2 ∷ []) ∷ []

-- a server whose patterns match all keys
abbrev all_keys : String → String → Bool
all_keys pattern_ k = true

abbrev redis : List (Option String) → RedisServer
redis faults = record { entries = two_entries; faults = faults }

abbrev before : List (Option String) → Pair RedisServer (Dict (List ℕ))
before faults = record { source = redis faults; destination = ("a", 9 ∷ []) ∷ [] }

abbrev after : Pair RedisServer (Dict (List ℕ))
after = record { source = redis []; destination = ("b", 2 ∷ []) ∷ ("a", 1 ∷ []) ∷ [] }

migrated : migrate (λ n. "n") (redis_storage all_keys) memory_storage (before []) ≡ (ok tt, after)
unfolding migrate Migration.copy_all Migration.copy Migration.copied memory_storage
    Memory.with_prefix redis_storage Redis.command Dict.get Dict.insert Dict.remove Dict.keys catch
    ◌>>=◌
migrated = refl

-- Where a load fails, its entry is left out, the others are copied, and the migration says so.
one_left_out :
    migrate
      (λ n. "n")
      (redis_storage all_keys)
      memory_storage
      (before (none ∷ none ∷ none ∷ some "timeout" ∷ []))
    ≡ (
      err (AcmeError.storage "Migration finished with n errors"),
      record after { destination = ("b", 2 ∷ []) ∷ ("a", 9 ∷ []) ∷ [] },
    )
unfolding migrate Migration.copy_all Migration.copy Migration.copied memory_storage
    Memory.with_prefix redis_storage Redis.command Dict.get Dict.insert Dict.remove Dict.keys catch
    ◌>>=◌
one_left_out = refl

b_found : get two_entries "b" ≡ some (2 ∷ [])
unfolding get
b_found = refl

migrate-copies_example :
    (get (Pair.destination after) "b" ≡ some (2 ∷ [])) × (get two_entries "b" ≡ some (2 ∷ []))
migrate-copies_example =
    migrate-copies (λ n. "n") (redis_storage-IsMap all_keys (λ prefix k asked begins. refl))
      memory_storage-IsMap (before []) after "b" (2 ∷ []) migrated b_found

abbrev twelve : List ℕ
twelve = 0 ∷ 0 ∷ 0 ∷ 0 ∷ 0 ∷ 0 ∷ 0 ∷ 0 ∷ 0 ∷ 0 ∷ 0 ∷ 0 ∷ []

-- a cipher that hides nothing
abbrev plain : Aead
plain = record {
  key_valid = true;
  seal = λ n x. done x;
  unseal = λ n x. done x;
  nonce = λ n. twelve;
}

plain-IsAead : IsAead plain
plain-IsAead = record { accepts = refl; nonce-length = λ n. refl; unseal-seal = λ n x y e. sym e }

abbrev sealed_after : Sealed (Dict (List ℕ))
sealed_after = record {
  inner = ("k", 0 ∷ 0 ∷ 0 ∷ 0 ∷ 0 ∷ 0 ∷ 0 ∷ 0 ∷ 0 ∷ 0 ∷ 0 ∷ 0 ∷ 5 ∷ []) ∷ [];
  drawn = 1;
}

sealed_stored :
    Backend.store
      (encrypted_storage plain memory_storage)
      "k"
      (5 ∷ [])
      (record { inner = []; drawn = 0 })
    ≡ (ok tt, sealed_after)
unfolding encrypted_storage Encrypted.encrypt memory_storage Dict.insert Dict.remove ◌>>=◌
sealed_stored = refl

sealed_found :
    Backend.load memory_storage "k" (Sealed.inner sealed_after)
    ≡ (ok (get (Sealed.inner sealed_after) "k"), Sealed.inner sealed_after)
unfolding memory_storage
sealed_found = refl

load-store_example :
    Backend.load (encrypted_storage plain memory_storage) "k" sealed_after
    ≡ (ok (some (5 ∷ [])), sealed_after)
load-store_example =
    load-store plain memory_storage plain-IsAead get memory_storage-IsMap "k" (5 ∷ [])
      (record { inner = []; drawn = 0 }) sealed_after (get (Sealed.inner sealed_after) "k")
      (Sealed.inner sealed_after) sealed_stored sealed_found

-- A codec for the one bundle that is empty.
abbrev pub no_bundle : CertificateBundle
no_bundle = record { certificate_pem = ""; private_key_pem = ""; domains = "a.org" ∷ [] }

unfoldable pub to_vec_fields : String → String → List String → Answer (List ℕ)
to_vec_fields pem key (d ∷ []) =
    if pem == "" && (key == "" && d == "a.org") then done (1 ∷ []) else fault "not empty"
to_vec_fields pem key _ = fault "not empty"

abbrev pub codec : Codec
codec = record {
  to_vec = λ b. to_vec_fields b.certificate_pem b.private_key_pem b.domains;
  from_slice = λ bytes. done no_bundle;
}

all_empty :
    (pem key d : String)
    → (pem == "" && (key == "" && d == "a.org")) ≡ true
    → (pem ≡ "") × (key ≡ "") × (d ≡ "a.org")
all_empty pem key d h = ground (arith, h, eq_iff pem "", eq_iff key "", eq_iff d "a.org")

bundle_of : String → String → List String → CertificateBundle
bundle_of pem key ds = record { certificate_pem = pem; private_key_pem = key; domains = ds }

one_back :
    (pem key d : String) (b : Bool) (bytes : List ℕ)
    → (b ≡ true → (pem ≡ "") × (key ≡ "") × (d ≡ "a.org"))
    → (if b then done (1 ∷ []) else fault "not empty") ≡ done bytes
    → Codec.from_slice codec bytes ≡ done (bundle_of pem key (d ∷ []))
unfolding bundle_of
one_back pem key d true bytes h e = rw ((h refl).0, (h refl).1, (h refl).2) refl
one_back pem key d false bytes h e = cc

fields_back :
    (pem key : String) (ds : List String) (bytes : List ℕ)
    → to_vec_fields pem key ds ≡ done bytes
    → Codec.from_slice codec bytes ≡ done (bundle_of pem key ds)
unfolding to_vec_fields
fields_back pem key (d ∷ []) bytes e =
    one_back pem key d (pem == "" && (key == "" && d == "a.org")) bytes (all_empty pem key d) e
fields_back pem key [] bytes e = cc
fields_back pem key (d ∷ c ∷ ds) bytes e = cc

pub read_back :
    (b : CertificateBundle) (bytes : List ℕ)
    → Codec.to_vec codec b ≡ done bytes
    → Codec.from_slice codec bytes ≡ done b
unfolding bundle_of
read_back b bytes e = fields_back b.certificate_pem b.private_key_pem b.domains bytes e
