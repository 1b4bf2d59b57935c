-- ===== src/Certificate/Chain.antt =====
-- src/certificate/chain.rs: certificate chains and their verification.
use acmex.Base.{
  ℕ, suc, ◌≤◌, String, ◌<>◌, ◌≡◌, ◌≢◌, ◌↔◌, refl, ap, ◌∙◌, ltb, Option, none, some, List, [], ◌∷◌,
  ◌++◌, is_empty, if◌then◌else◌, arith,
}
use acmex.Error.{AcmeError}
use acmex.Act.Triple.{both_ok}
use acmex.Act.{Outcome, Answer, ok, err, done, fault, and_then, outcome_of}
use acmex.Certificate.X509.{
  X509, Parsers, GeneralName, dns_name, ip_address, Extension, subject_alternative_name,
  certificates, parse_certificate_chain,
}
use acmex.Certificate.Ocsp.{OcspStatus, good, revoked, unknown, first_uri, verify_status}

pub record CertificateChain : Type 0 where
  pub leaf : List ℕ
  pub intermediates : List (List ℕ)
  pub root : Option (List ℕ)

-- The first certificate is the leaf.
abbrev chain_of : List (List ℕ) → Outcome CertificateChain
chain_of [] = err (AcmeError.crypto "No certificates found in PEM data")
chain_of (leaf ∷ rest) = ok (record { leaf = leaf; intermediates = rest; root = none })

-- The display of a number and of an address, and the clock, which is read for each certificate.
module _ (p : Parsers) (show_number : ℕ → String) (show_ip : List ℕ → Option String)
    (clock : ℕ → ℕ) where
  unfoldable pub from_pem : String → Outcome CertificateChain
  unfolding certificates
  from_pem pem =
      and_then
        (outcome_of (p.parse_many pem) (λ e. AcmeError.crypto ("Failed to parse PEM: " <> e)))
        (λ blocks. chain_of (certificates blocks))

  abbrev in_time : ℕ → X509 → Outcome (Unit {0})
  in_time i cert =
      if ltb (clock i) cert.not_before
      then err (AcmeError.certificate ("Cert " <> show_number i <> " not yet valid"))
      else if ltb cert.not_after (clock i)
      then err (AcmeError.certificate ("Cert " <> show_number i <> " expired"))
      else ok tt

  abbrev judge_cert : ℕ → Answer X509 → Outcome (Unit {0})
  judge_cert i a =
      and_then
        (outcome_of a (λ e.
          AcmeError.certificate
            ("Invalid intermediate certificate " <> show_number i <> ": " <> e)))
        (in_time i)

  -- the certificate with this index
  unfoldable pub check : ℕ → List ℕ → Outcome (Unit {0})
  check i der = judge_cert i (p.from_der der)

  unfoldable pub check_from : ℕ → List (List ℕ) → Outcome (Unit {0})
  unfolding check
  check_from i [] = ok tt
  check_from i (der ∷ rest) = and_then (check i der) (λ _. check_from (suc i) rest)

  unfoldable pub verify : CertificateChain → Outcome (Unit {0})
  unfolding check_from
  verify chain =
      if is_empty chain.intermediates
      then err (AcmeError.certificate "Empty certificate chain")
      else check_from 0 chain.intermediates

  abbrev judged : OcspStatus → Outcome (Unit {0})
  judged good = ok tt
  judged revoked = err (AcmeError.certificate "Certificate is revoked according to OCSP")
  judged unknown = ok tt

  unfoldable pub verify_deep : Answer (Unit {0}) → CertificateChain → Outcome (Unit {0})
  unfolding verify verify_status
  verify_deep client chain =
      and_then (verify chain) (λ _. and_then (verify_status p client chain.leaf) judged)

  abbrev pub parsed_leaf : CertificateChain → Outcome X509
  parsed_leaf chain =
      outcome_of (p.from_der chain.leaf) (λ e. AcmeError.crypto ("Invalid leaf certificate: " <> e))

  -- the first that is a text
  abbrev first_text : List (Answer String) → Outcome String
  first_text [] = err (AcmeError.crypto "No Common Name found in certificate")
  first_text (done name ∷ names) = ok name
  first_text (fault e ∷ names) = first_text names

  unfoldable pub common_name : CertificateChain → Outcome String
  common_name chain = and_then (parsed_leaf chain) (λ cert. first_text cert.common_names)

  -- an address of 4 or 16 bytes has a display, others are left out
  abbrev with_shown : Option String → List String → List String
  with_shown none rest = rest
  with_shown (some t) rest = t ∷ rest

  abbrev san_texts : List GeneralName → List String
  san_texts [] = []
  san_texts (dns_name domain ∷ names) = domain ∷ san_texts names
  san_texts (ip_address bytes ∷ names) = with_shown (show_ip bytes) (san_texts names)
  san_texts (_ ∷ names) = san_texts names

  abbrev alt_names : List Extension → List String
  alt_names [] = []
  alt_names (subject_alternative_name names ∷ rest) = san_texts names ++ alt_names rest
  alt_names (_ ∷ rest) = alt_names rest

  unfoldable pub subject_alt_names : CertificateChain → Outcome (List String)
  subject_alt_names chain = and_then (parsed_leaf chain) (λ cert. ok (alt_names cert.extensions))

  unfoldable pub ocsp_url : CertificateChain → Outcome (Option String)
  unfolding first_uri
  ocsp_url chain = and_then (parsed_leaf chain) (λ cert. ok (first_uri cert.extensions))

  -- The certificate with this index parses, and the clock is within its validity.
  pub record IsCurrent (i : ℕ) (der : List ℕ) : Type 0 where
    pub cert : X509
    pub parses : p.from_der der ≡ done cert
    pub begun : X509.not_before cert ≤ clock i
    pub lasts : clock i ≤ X509.not_after cert

  abbrev pub AllCurrent : ℕ → List (List ℕ) → Type 0
  AllCurrent i [] = Unit
  AllCurrent i (der ∷ rest) = IsCurrent i der × AllCurrent (suc i) rest

  in_time_lem :
      (i : ℕ) (cert : X509)
      → (in_time i cert ≡ ok tt) ↔ ((cert.not_before ≤ clock i) × (clock i ≤ cert.not_after))
  in_time_lem i cert = (λ h. ground (arith, h), λ h. ground (arith, h))

  judged-IsCurrent :
      (i : ℕ) (der : List ℕ) (a : Answer X509)
      → p.from_der der ≡ a
      → judge_cert i a ≡ ok tt
      → IsCurrent i der
  judged-IsCurrent i der (done cert) e h =
      let (begun, lasts) = (in_time_lem i cert).0 h in
      record { cert = cert; parses = e; begun = begun; lasts = lasts }
  judged-IsCurrent i der (fault m) e h = cc

  check_iff : (i : ℕ) (der : List ℕ) → (check i der ≡ ok tt) ↔ IsCurrent i der
  unfolding check
  check_iff i der = (
    λ h. judged-IsCurrent i der (p.from_der der) refl h,
    λ c. ap (judge_cert i) c.parses ∙ (in_time_lem i c.cert).1 (c.begun, c.lasts),
  )

  check_from_iff : (i : ℕ) (ders : List (List ℕ)) → (check_from i ders ≡ ok tt) ↔ AllCurrent i ders
  unfolding check_from
  check_from_iff i [] = (λ h. tt, λ h. refl)
  check_from_iff i (der ∷ rest) =
      let (apart, together) = both_ok (check i der) (check_from (suc i) rest) in
      let (one, one') = check_iff i der in
      let (more, more') = check_from_iff (suc i) rest in
      (λ h. (one (apart h).0, more (apart h).1), λ c. together (one' c.0, more' c.1))

  guarded :
      (ders : List (List ℕ)) (e : AcmeError)
      → ((if is_empty ders then err e else check_from 0 ders) ≡ ok tt)
        ↔ ((ders ≢ []) × AllCurrent 0 ders)
  guarded [] e = (λ h. cc, λ h. absurd (h.0 refl))
  guarded (der ∷ rest) e =
      let (forward, backward) = check_from_iff 0 (der ∷ rest) in
      (λ h. (λ x. cc, forward h), λ c. backward c.1)

  -- A chain is verified exactly when it has certificates after the leaf, each of which parses and is
  -- within its validity when its turn comes. Nothing is asked of the leaf.
  pub verify_iff :
      (chain : CertificateChain)
      → (verify chain ≡ ok tt) ↔ ((chain.intermediates ≢ []) × AllCurrent 0 chain.intermediates)
  unfolding verify
  verify_iff chain = guarded chain.intermediates _

  -- the certificates of a chain, as the other parser gives them
  abbrev pub listed : CertificateChain → List (List ℕ)
  listed chain = chain.leaf ∷ chain.intermediates

  same_blocks :
      (certs : List (List ℕ)) (e : AcmeError) (chain : CertificateChain)
      → chain_of certs ≡ ok chain
      → (if is_empty certs then err e else ok certs) ≡ ok (listed chain)
  same_blocks [] e chain h = cc
  same_blocks (leaf ∷ rest) e chain h = cc

  same_parse :
      (a : Answer (List (String × List ℕ))) (e e' : String → AcmeError) (e'' : AcmeError)
      (chain : CertificateChain)
      → and_then (outcome_of a e) (λ blocks. chain_of (certificates blocks)) ≡ ok chain
      → and_then
          (outcome_of a e')
          (λ blocks. if is_empty (certificates blocks) then err e'' else ok (certificates blocks))
        ≡ ok (listed chain)
  same_parse (done blocks) e e' e'' chain h = same_blocks (certificates blocks) e'' chain h
  same_parse (fault m) e e' e'' chain h = cc

  -- Both parsers of a PEM text agree: a chain that one gives is the list that the other gives, the
  -- leaf first.
  parse_certificate_chain-from_pem :
      (pem : String) (chain : CertificateChain)
      → from_pem pem ≡ ok chain
      → parse_certificate_chain p pem ≡ ok (listed chain)
  unfolding from_pem parse_certificate_chain
  parse_certificate_chain-from_pem pem chain h = same_parse (p.parse_many pem) _ _ _ chain h
