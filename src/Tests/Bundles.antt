-- ===== src/Tests/Bundles.antt =====
-- A bundle for two domains that is saved, and loaded by them in the other order.
use mathlib.Core.List.Perm
use acmex.Base.{
  ℕ, String, ◌≡◌, refl, Bool, ◌==◌, ◌&&◌, eq_iff, true, false, some, List, [], ◌∷◌, arith,
  if◌then◌else◌,
}
use acmex.Base.Dict
use acmex.Base.Dict.{Dict, get}
use acmex.Act.{Answer, ok, done, fault, ◌>>=◌}
use acmex.Client.Issue.{CertificateBundle}
use acmex.Storage.Backend.{Backend}
use acmex.Storage.Memory.{memory_storage, memory_storage-IsMap}
use acmex.Storage.Certificates
use acmex.Storage.Certificates.{Codec, save, load}
use acmex.Storage.AnyOrder.{load-save_any_order}

bundle_of : String → String → List String → CertificateBundle
bundle_of pem key ds = record { certificate_pem = pem; private_key_pem = key; domains = ds }

abbrev pair : CertificateBundle
pair = record { certificate_pem = ""; private_key_pem = ""; domains = "b.org" ∷ "a.org" ∷ [] }

to_vec_pair : String → String → List String → Answer (List ℕ)
to_vec_pair pem key (d ∷ c ∷ []) =
    if pem == "" && (key == "" && (d == "b.org" && c == "a.org"))
    then done (1 ∷ [])
    else fault "another bundle"
to_vec_pair pem key _ = fault "another bundle"

abbrev codec : Codec
codec = record {
  to_vec = λ b. to_vec_pair b.certificate_pem b.private_key_pem b.domains;
  from_slice = λ bytes. done pair;
}

all_same :
    (pem key d c : String)
    → (pem == "" && (key == "" && (d == "b.org" && c == "a.org"))) ≡ true
    → (pem ≡ "") × (key ≡ "") × (d ≡ "b.org") × (c ≡ "a.org")
all_same pem key d c h =
    ground (arith, h, eq_iff pem "", eq_iff key "", eq_iff d "b.org", eq_iff c "a.org")

pair_back :
    (pem key d c : String) (b : Bool) (bytes : List ℕ)
    → (b ≡ true → (pem ≡ "") × (key ≡ "") × (d ≡ "b.org") × (c ≡ "a.org"))
    → (if b then done (1 ∷ []) else fault "another bundle") ≡ done bytes
    → Codec.from_slice codec bytes ≡ done (bundle_of pem key (d ∷ c ∷ []))
unfolding bundle_of
pair_back pem key d c true bytes h e = let (e0, e1, e2, e3) = h refl in rw (e0, e1, e2, e3) refl
pair_back pem key d c false bytes h e = cc

fields_back :
    (pem key : String) (ds : List String) (bytes : List ℕ)
    → to_vec_pair pem key ds ≡ done bytes
    → Codec.from_slice codec bytes ≡ done (bundle_of pem key ds)
unfolding to_vec_pair
fields_back pem key (d ∷ c ∷ []) bytes e =
    pair_back pem key d c (pem == "" && (key == "" && (d == "b.org" && c == "a.org"))) bytes
      (all_same pem key d c) e
fields_back pem key [] bytes e = cc
fields_back pem key (d ∷ []) bytes e = cc
fields_back pem key (d ∷ c ∷ x ∷ ds) bytes e = cc

read_back :
    (b : CertificateBundle) (bytes : List ℕ)
    → Codec.to_vec codec b ≡ done bytes
    → Codec.from_slice codec bytes ≡ done b
unfolding bundle_of
read_back b bytes e = fields_back b.certificate_pem b.private_key_pem b.domains bytes e

abbrev saved : Dict (List ℕ)
saved = ("cert:a.org,b.org", 1 ∷ []) ∷ []

saves : save codec memory_storage pair [] ≡ (ok tt, saved)
unfolding save to_vec_pair Certificates.key_for_domains Certificates.sort Certificates.insert_sorted
    Certificates.join memory_storage Dict.insert Dict.remove ◌>>=◌
saves = refl

loads :
    Backend.load memory_storage (Certificates.key_for_domains ("a.org" ∷ "b.org" ∷ [])) saved
    ≡ (ok (get saved (Certificates.key_for_domains ("a.org" ∷ "b.org" ∷ []))), saved)
unfolding memory_storage
loads = refl

load-save_any_order_example :
    load codec memory_storage ("a.org" ∷ "b.org" ∷ []) saved ≡ (ok (some pair), saved)
load-save_any_order_example =
    load-save_any_order codec memory_storage read_back get memory_storage-IsMap pair
      ("a.org" ∷ "b.org" ∷ []) [] saved saved
      (get saved (Certificates.key_for_domains ("a.org" ∷ "b.org" ∷ [])))
      (Perm.swap "b.org" "a.org" []) saves loads
