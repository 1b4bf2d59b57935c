-- ===== src/Certificate/X509.antt =====
-- What the program reads of a parsed certificate, and src/order/csr.rs: parsing a downloaded chain,
-- and checking the names of a certificate. Instants are numbers of seconds since the earliest one
-- that a timestamp can hold.
use acmex.Base.{
  ℕ, String, ◌<>◌, ◌==◌, ◌≡◌, ◌↔◌, refl, ap, sym, ◌∙◌, eq_iff, Bool-cases, inl, inr, Bool, true,
  false, ◌||◌, Option, none, some, List, [], ◌∷◌, All, is_empty, if◌then◌else◌, arith,
}
use acmex.Error.{AcmeError}
use acmex.Act.{Outcome, Answer, done, ok, err, and_then, outcome_of}
use mathlib.Core.List.{Memᴰ}

pub data GeneralName : Type 0 where
  dns_name uri : String → GeneralName
  ip_address : List ℕ → GeneralName
  other : GeneralName

pub data Extension : Type 0 where
  subject_alternative_name : List GeneralName → Extension
  -- methods with their locations
  authority_info_access : List (String × GeneralName) → Extension
  another : Extension

-- `X509Certificate` of `x509-parser`, as far as it is read. `san` is what its
-- `subject_alternative_name()` gives, with an error taken as none.
pub record X509 : Type 0 where
  pub not_before : ℕ
  pub not_after : ℕ
  pub common_names : List (Answer String)
  pub extensions : List Extension
  pub san : Option (List GeneralName)

-- The `pem` and `x509-parser` crates: the tagged blocks of a text, and a certificate from its DER.
pub record Parsers : Type 0 where
  pub parse_many : String → Answer (List (String × List ℕ))
  pub from_der : List ℕ → Answer X509

-- the contents of the blocks that are certificates
unfoldable pub certificates : List (String × List ℕ) → List (List ℕ)
certificates [] = []
certificates ((tag, contents) ∷ blocks) =
    let rest = certificates blocks in if tag == "CERTIFICATE" then contents ∷ rest else rest

-- the DNS names among the alternative names
unfoldable pub dns_names : List GeneralName → List String
dns_names [] = []
dns_names (dns_name domain ∷ names) = domain ∷ dns_names names
dns_names (_ ∷ names) = dns_names names

abbrev pub names_of : Option (List GeneralName) → List GeneralName
names_of none = []
names_of (some names) = names

abbrev pub contains : List String → String → Bool
contains [] s = false
contains (x ∷ xs) s = let rest = contains xs s in x == s || rest

-- the loop over the expected domains
unfoldable pub all_contained : List String → List String → Bool
all_contained domains [] = true
all_contained domains (expected ∷ rest) =
    let others = all_contained domains rest in if contains domains expected then others else false

module _ (p : Parsers) where
  unfoldable pub parse_certificate_chain : String → Outcome (List (List ℕ))
  unfolding certificates
  parse_certificate_chain pem =
      and_then
        (outcome_of (p.parse_many pem) (λ e. AcmeError.certificate ("Failed to parse PEM: " <> e)))
        (λ blocks.
          if is_empty (certificates blocks)
          then err (AcmeError.certificate "No certificates found in PEM")
          else ok (certificates blocks))

  unfoldable pub verify_certificate_domains : List ℕ → List String → Outcome Bool
  unfolding dns_names all_contained
  verify_certificate_domains der expected_domains =
      and_then
        (outcome_of (p.from_der der)
          (λ e. AcmeError.certificate ("Failed to parse certificate: " <> e)))
        (λ cert. ok (all_contained (dns_names (names_of cert.san)) expected_domains))

-- A DNS name of the certificate.
abbrev pub IsNamed : X509 → String → Type 0
IsNamed cert domain = Memᴰ (dns_name domain) (names_of cert.san)

contained_named :
    (names : List GeneralName) (domain : String)
    → contains (dns_names names) domain ≡ true
    → Memᴰ (dns_name domain) names
unfolding dns_names
contained_named [] domain h = cc
contained_named (dns_name d ∷ names) domain h = elim (Bool-cases (d == domain)) [
  | inl same ↦ Memᴰ.head (ap dns_name (sym ((eq_iff d domain).0 same)))
  | inr differ ↦ Memᴰ.tail (contained_named names domain (ground (arith, h, differ)))
]
contained_named (uri u ∷ names) domain h = Memᴰ.tail (contained_named names domain h)
contained_named (ip_address a ∷ names) domain h = Memᴰ.tail (contained_named names domain h)
contained_named (other ∷ names) domain h = Memᴰ.tail (contained_named names domain h)

same_name : (d domain : String) → dns_name domain ≡ dns_name d → d ≡ domain
same_name d domain e = cc

named_contained :
    (names : List GeneralName) (domain : String)
    → Memᴰ (dns_name domain) names
    → contains (dns_names names) domain ≡ true
unfolding dns_names
named_contained [] domain m = elim m [ ]
named_contained (dns_name d ∷ names) domain (Memᴰ.head e) =
    rw ((eq_iff d domain).1 (same_name d domain e)) refl
named_contained (dns_name d ∷ names) domain (Memᴰ.tail m) =
    ground (arith, named_contained names domain m)
named_contained (uri u ∷ names) domain (Memᴰ.head e) = cc
named_contained (uri u ∷ names) domain (Memᴰ.tail m) = named_contained names domain m
named_contained (ip_address a ∷ names) domain (Memᴰ.head e) = cc
named_contained (ip_address a ∷ names) domain (Memᴰ.tail m) = named_contained names domain m
named_contained (other ∷ names) domain (Memᴰ.head e) = cc
named_contained (other ∷ names) domain (Memᴰ.tail m) = named_contained names domain m

All-IsNamed :
    (cert : X509) (expected : List String)
    → (all_contained (dns_names (names_of cert.san)) expected ≡ true) ↔ All (IsNamed cert) expected
unfolding all_contained
All-IsNamed cert [] = (λ h. tt, λ h. refl)
All-IsNamed cert (d ∷ expected) =
    let names = names_of cert.san in
    let (forward, backward) = All-IsNamed cert expected in
    (
      λ h. (contained_named names d (ground (arith, h)), forward (ground (arith, h))),
      λ (m, ms). ground (arith, named_contained names d m, backward ms),
    )

told : (b : Bool) → Outcome.ok b ≡ ok true → b ≡ true
told b e = cc

module _ (p : Parsers) where
  verified :
      (der : List ℕ) (cert : X509) (expected : List String)
      → p.from_der der ≡ done cert
      → verify_certificate_domains p der expected
        ≡ ok (all_contained (dns_names (names_of cert.san)) expected)
  unfolding verify_certificate_domains
  verified der cert expected h = rw h refl

  -- Where the certificate parses, the check of its domains is true exactly when each of them is a DNS
  -- name among its alternative names.
  verify_certificate_domains_iff :
      (der : List ℕ) (cert : X509) (expected : List String)
      → p.from_der der ≡ done cert
      → (verify_certificate_domains p der expected ≡ ok true) ↔ All (IsNamed cert) expected
  verify_certificate_domains_iff der cert expected h =
      let (forward, backward) = All-IsNamed cert expected in
      (
        λ e. forward (told _ (sym (verified der cert expected h) ∙ e)),
        λ a. verified der cert expected h ∙ ap ok (backward a),
      )
