-- ===== src/Tests/Certificate.antt =====
-- A chain of two certificates, of which the parsers read the numbers in the first byte.
use acmex.Base.{ℕ, ◌≡◌, ◌≢◌, ◌↔◌, ◌⊎◌, refl, String, Option, none, some, List, [], ◌∷◌, true}
use acmex.Act.{done, ok}
use acmex.Certificate.X509.{X509, Parsers, dns_name, certificates}
use acmex.Certificate.Chain.{CertificateChain, from_pem, verify, AllCurrent, verify_iff}
use acmex.Storage.Memory.{memory_storage, memory_storage-IsMap}
use acmex.Base.Dict.{Dict, get}
use acmex.Scheduler.Cleanup.{perform_cleanup, IsExpired}
use acmex.Scheduler.Swept.{perform_cleanup-Expired}
use text.Mathlib.Text.{starts_with}

-- valid from 100 to 200
abbrev cert : X509
cert = record {
  not_before = 100;
  not_after = 200;
  common_names = [];
  extensions = [];
  san = some (dns_name "a.org" ∷ dns_name "b.org" ∷ []);
}

abbrev parsers : Parsers
parsers = record {
  parse_many = λ text.
      done (("CERTIFICATE", 1 ∷ []) ∷ ("PRIVATE KEY", 9 ∷ []) ∷ ("CERTIFICATE", 2 ∷ []) ∷ []);
  from_der = λ der. done cert;
}

abbrev chain : CertificateChain
chain = record { leaf = 1 ∷ []; intermediates = (2 ∷ []) ∷ []; root = none }

abbrev shown : ℕ → String
shown n = "n"

abbrev no_ip : List ℕ → Option String
no_ip bytes = none

abbrev clock : ℕ → ℕ
clock i = 150

verify_iff_example : (verify parsers shown no_ip clock chain ≡ ok tt) ↔ (
    (CertificateChain.intermediates chain ≢ [])
    × AllCurrent parsers shown no_ip clock 0 (CertificateChain.intermediates chain))
verify_iff_example = verify_iff parsers shown no_ip clock chain

splits : from_pem parsers shown no_ip clock "" ≡ ok chain
unfolding from_pem certificates
splits = refl

abbrev stored : Dict (List ℕ)
stored = ("cert:a.org", 1 ∷ []) ∷ []

perform_cleanup-Expired_example :
    let (r, t) = perform_cleanup parsers memory_storage (λ key. 201) stored in
    ((get t "cert:a.org" ≡ get stored "cert:a.org")
      ⊎ ((get t "cert:a.org" ≡ none)
          × ((b : List ℕ) × (get stored "cert:a.org" ≡ some b)
              × IsExpired parsers memory_storage (λ key. 201) "cert:a.org" b)))
    × (r ≡ ok tt
        → starts_with "cert:a.org" "cert:" ≡ true
        → ((b : List ℕ) × (get stored "cert:a.org" ≡ some b)
            × IsExpired parsers memory_storage (λ key. 201) "cert:a.org" b)
        → get t "cert:a.org" ≡ none)
perform_cleanup-Expired_example =
    perform_cleanup-Expired parsers memory_storage (λ key. 201) get memory_storage-IsMap
      "cert:a.org" stored
