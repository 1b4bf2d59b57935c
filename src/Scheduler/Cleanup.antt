-- ===== src/Scheduler/Cleanup.antt =====
-- src/scheduler/cleanup_scheduler.rs: removing what has expired from a backend. An instant is a
-- number of seconds since the earliest one that a timestamp can hold.
use acmex.Base.{
  ℕ, String, ◌≡◌, Bool, false, ltb, ◌<◌, Option, none, some, List, [], ◌∷◌, if◌then◌else◌,
}
use acmex.Act.{Act, Answer, done, fault, pure, ◌>>=◌, ◌>>◌}
use acmex.Certificate.X509.{X509, Parsers}
use acmex.Storage.Backend.{Backend}

-- The clock is read when a key's certificate has been parsed.
module _ {S : Type 0} (p : Parsers) (backend : Backend S) (clock : String → ℕ) where
  abbrev pub has_expired : String → Answer X509 → Bool
  has_expired key (done cert) = ltb cert.not_after (clock key)
  has_expired key (fault e) = false

  abbrev pub removed : String → Option (List ℕ) → Act S (Unit {0})
  removed key none = pure tt
  removed key (some bytes) =
      if has_expired key (p.from_der bytes) then Backend.delete backend key else pure tt

  unfoldable pub clean : List String → Act S (Unit {0})
  clean [] = pure tt
  clean (key ∷ keys) = do found ← Backend.load backend key; removed key found; clean keys

  unfoldable pub perform_cleanup : Act S (Unit {0})
  unfolding clean
  perform_cleanup = Backend.list backend "cert:" >>= clean

  -- The bytes are a certificate that has expired when its key's turn comes.
  pub record IsExpired (key : String) (bytes : List ℕ) : Type 0 where
    pub cert : X509
    pub parses : p.from_der bytes ≡ done cert
    pub over : X509.not_after cert < clock key
