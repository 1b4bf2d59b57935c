-- ===== src/Storage/Certificates.antt =====
-- src/storage/cert_store.rs: certificate bundles under the sorted names of their domains.
use acmex.Base.{
  ℕ, String, ◌<>◌, ◌≡◌, refl, ◌∙◌, ◌==◌, eq_iff, Option, none, some, List, [], ◌∷◌, if◌then◌else◌,
}
use acmex.Error.{AcmeError}
use acmex.Act.{Act, Answer, Outcome, ok, err, panic, done, fault, pure, or_raise, ◌>>=◌}
use acmex.Act.Triple.{Triple, After, Anything, bind_rule, raised_rule, returned}
use acmex.Client.Issue.{CertificateBundle}
use acmex.Storage.Backend.{Backend, IsMap, loaded_view}
use text.Mathlib.Text.{is_le}
use Prim.Native.String.{compare}

-- `sort` on texts
unfoldable pub insert_sorted : String → List String → List String
insert_sorted x [] = x ∷ []
insert_sorted x (y ∷ ys) =
    let rest = insert_sorted x ys in if is_le (compare x y) then x ∷ y ∷ ys else y ∷ rest

unfoldable pub sort : List String → List String
unfolding insert_sorted
sort [] = []
sort (x ∷ xs) = insert_sorted x (sort xs)

-- `join(",")`
unfoldable pub join : List String → String
join [] = ""
join (x ∷ []) = x
join (x ∷ y ∷ ys) = x <> "," <> join (y ∷ ys)

unfoldable pub key_for_domains : List String → String
unfolding sort join
key_for_domains domains = "cert:" <> join (sort domains)

-- `serde_json` on bundles
pub record Codec : Type 0 where
  pub to_vec : CertificateBundle → Answer (List ℕ)
  pub from_slice : List ℕ → Answer CertificateBundle

module _ {S : Type 0} (codec : Codec) (backend : Backend S) where
  open codec use {to_vec, from_slice}

  unfoldable pub save : CertificateBundle → Act S (Unit {0})
  save bundle = do
    bytes ←
        or_raise (to_vec bundle) (λ e. AcmeError.storage ("Serialize cert bundle failed: " <> e))
    Backend.store backend (key_for_domains bundle.domains) bytes

  unfoldable pub decoded : Option (List ℕ) → Act S (Option CertificateBundle)
  decoded none = pure none
  decoded (some bytes) = do
    bundle ←
        or_raise (from_slice bytes)
          (λ e. AcmeError.storage ("Deserialize cert bundle failed: " <> e))
    pure (some bundle)

  unfoldable pub load : List String → Act S (Option CertificateBundle)
  unfolding decoded
  load domains = Backend.load backend (key_for_domains domains) >>= decoded

  unfoldable pub delete : List String → Act S (Unit {0})
  delete domains = Backend.delete backend (key_for_domains domains)

  -- Entries that are gone or do not parse are left out.
  abbrev with_decoded : Option (List ℕ) → List CertificateBundle → List CertificateBundle
  with_decoded none rest = rest
  with_decoded (some bytes) rest = elim (from_slice bytes) [
    | done bundle ↦ bundle ∷ rest
    | fault e ↦ rest
  ]

  unfoldable pub load_each : List String → Act S (List CertificateBundle)
  load_each [] = pure []
  load_each (key ∷ keys) = do
    found ← Backend.load backend key
    rest ← load_each keys
    pure (with_decoded found rest)

  unfoldable pub list_all : Act S (List CertificateBundle)
  unfolding load_each
  list_all = Backend.list backend "cert:" >>= load_each

  module _
      (reads_back : (b : CertificateBundle) (bytes : List ℕ)
        → to_vec b ≡ done bytes
        → from_slice bytes ≡ done b)
      (view : S → String → Option (List ℕ)) (laws : IsMap backend view) where
    -- The bundle stands encoded under the key of its domains.
    Saved : CertificateBundle → S → Type 0
    Saved b s =
        (bytes : List ℕ) × (to_vec b ≡ done bytes)
        × (view s (key_for_domains b.domains) ≡ some bytes)

    stored :
        (b : CertificateBundle) (bytes : List ℕ) (r : Outcome (Unit {0})) (s t : S)
        → to_vec b ≡ done bytes
        → After
            (λ _ t.
              (j : String)
              → view t j ≡ (if key_for_domains b.domains == j then some bytes else view s j))
            (λ t. (j : String) → view t j ≡ view s j)
            r
            t
        → After (λ _. Saved b) Anything r t
    unfolding Saved
    stored b bytes (ok a) s t e h = (
      bytes,
      e,
      h (key_for_domains b.domains) ∙ rw ((eq_iff (key_for_domains b.domains) _).1 refl) refl,
    )
    stored b bytes (err a) s t e h = tt
    stored b bytes (panic a) s t e h = tt

    save-Saved : (b : CertificateBundle) → Triple Anything (save b) (λ _. Saved b) Anything
    unfolding save
    save-Saved b =
        bind_rule
          (raised_rule (λ s h. tt) (λ bytes s. to_vec b ≡ done bytes) _ _ (λ bytes e s h. e))
          (λ bytes. record {
            run = λ s h. stored b bytes _ s _ h (laws.stores (key_for_domains b.domains) bytes s);
          })

    load-Saved :
        (b : CertificateBundle) (t u : S) (o : Option (List ℕ))
        → Saved b t
        → Backend.load backend (key_for_domains b.domains) t ≡ (ok o, u)
        → o ≡ view t (key_for_domains b.domains)
        → load b.domains t ≡ (ok (some b), u)
    unfolding load decoded Saved ◌>>=◌
    load-Saved b t u o h e same = rw (e, same, h.2, reads_back b h.0 h.1) refl

    -- For a codec that reads back what it writes and a backend that is a map: after a save that
    -- succeeded, whenever the backend loads the key, the bundle is loaded by its domains.
    pub load-save :
        (b : CertificateBundle) (s t u : S) (o : Option (List ℕ))
        → save b s ≡ (ok tt, t)
        → Backend.load backend (key_for_domains b.domains) t ≡ (ok o, u)
        → load b.domains t ≡ (ok (some b), u)
    load-save b s t u o saved loaded =
        load-Saved b t u o (returned (save-Saved b) s tt tt t saved) loaded
          (loaded_view laws (key_for_domains b.domains) t o u loaded)
