-- ===== src/Scheduler/Swept.antt =====
-- What the cleanup of src/scheduler/cleanup_scheduler.rs removes, and what it leaves.
use acmex.Base.{
  ℕ, String, ◌≡◌, refl, sym, ap, subst, ◌∙◌, ◌==◌, eq_iff, Bool, true, false, ◌||◌, ltb, ltb→lt,
  ◌<◌, Option, none, some, List, [], ◌∷◌, ◌⊎◌, inl, inr, Bool-cases, false≢true, if◌then◌else◌,
  arith,
}
use acmex.Act.{Act, Answer, Outcome, ok, err, panic, done, fault}
use acmex.Act.Triple.{Triple, After, bind_rule, if_rule, weaken_rule}
use acmex.Certificate.X509.{X509, Parsers}
use acmex.Storage.Backend.{Backend, IsMap, contains}
use text.Mathlib.Text.{starts_with}
use acmex.Scheduler.Cleanup.{has_expired, removed, clean, perform_cleanup, IsExpired}

apart : (b : Bool) → b ≡ true → b ≡ false → ⊥
apart b t f = false≢true (sym f ∙ t)

module _ {S : Type 0} (p : Parsers) (backend : Backend S) (clock : String → ℕ) where
  abbrev expired : String → Answer X509 → Bool
  expired = has_expired p backend clock

  abbrev removal : String → Option (List ℕ) → Act S (Unit {0})
  removal = removed p backend clock

  abbrev cleaning : List String → Act S (Unit {0})
  cleaning = clean p backend clock

  abbrev cleanup : Act S (Unit {0})
  cleanup = perform_cleanup p backend clock

  abbrev Expired : String → List ℕ → Type 0
  Expired = IsExpired p backend clock

  expired_lem :
      (key : String) (bytes : List ℕ) (a : Answer X509)
      → p.from_der bytes ≡ a
      → expired key a ≡ true
      → Expired key bytes
  expired_lem key bytes (done cert) e h = record { cert = cert; parses = e; over = ltb→lt _ _ h }
  expired_lem key bytes (fault m) e h = cc

  over_lem : (a b : ℕ) → a < b → ltb a b ≡ true
  over_lem a b h = ground (arith, h)

  Expired-has :
      (key : String) (bytes : List ℕ) → Expired key bytes → expired key (p.from_der bytes) ≡ true
  Expired-has key bytes x =
      ap (expired key) x.parses ∙ over_lem (X509.not_after x.cert) (clock key) x.over

  module _ (view : S → String → Option (List ℕ)) (laws : IsMap backend view) (j : String)
      (entry : Option (List ℕ)) where
    -- The key held an expired certificate.
    abbrev Due : Type 0
    Due = (bytes : List ℕ) × (entry ≡ some bytes) × Expired j bytes

    -- The key holds what it held, or was due and is gone; and if it was seen and due, it is gone.
    record Cleaned (seen : Bool) (s : S) : Type 0 where
      safe : (view s j ≡ entry) ⊎ ((view s j ≡ none) × Due)
      gone : seen ≡ true → Due → view s j ≡ none

    moved : (seen : Bool) (s t : S) → view t j ≡ view s j → Cleaned seen s → Cleaned seen t
    moved seen s t e c = record {
      safe = subst (λ v. (v ≡ entry) ⊎ ((v ≡ none) × Due)) (sym e) c.safe;
      gone = λ h d. e ∙ c.gone h d;
    }

    first_of : (s : S) → view s j ≡ entry → Cleaned false s
    first_of s e = record { safe = inl e; gone = λ f d. absurd (false≢true f) }

    unsee : (seen : Bool) (s : S) → Cleaned seen s → Cleaned false s
    unsee seen s c = record { safe = c.safe; gone = λ e d. absurd (false≢true e) }

    settle :
        (key : String) (seen : Bool) (s : S)
        → Cleaned seen s
        → (key ≡ j → Due → view s j ≡ none)
        → Cleaned (key == j || seen) s
    settle key seen s c h = record {
      safe = c.safe;
      gone = λ e d. elim (Bool-cases (key == j)) [
        | inl same ↦ h ((eq_iff key j).0 same) d
        | inr differ ↦ c.gone (ground (arith, e, differ)) d
      ];
    }

    entry_is :
        (o : Option (List ℕ)) (bytes : List ℕ)
        → (o ≡ entry) ⊎ ((o ≡ none) × Due)
        → o ≡ some bytes
        → entry ≡ some bytes
    entry_is o bytes (inl e) h = sym e ∙ h
    entry_is o bytes (inr (e, d)) h = cc

    same_bytes : (a b : List ℕ) → entry ≡ some a → entry ≡ some b → a ≡ b
    same_bytes a b e h = cc

    -- what is found under the key itself
    at_key : (key : String) (s : S) (o : Option (List ℕ)) → o ≡ view s key → key ≡ j → view s j ≡ o
    at_key key s o e same = ap (view s) (sym same) ∙ sym e

    kept_lem :
        (key : String) (seen : Bool) (bytes : List ℕ) (s : S)
        → expired key (p.from_der bytes) ≡ false
        → some bytes ≡ view s key
        → Cleaned seen s
        → Cleaned (key == j || seen) s
    kept_lem key seen bytes s h found c = settle key seen s c (λ same (bytes', e, x).
        let here = entry_is (view s j) bytes c.safe (at_key key s (some bytes) found same) in
        absurd (
          apart _
            (subst (λ k. expired k (p.from_der bytes) ≡ true) (sym same)
              (Expired-has j bytes (subst (Expired j) (same_bytes bytes' bytes e here) x)))
            h))

    -- a deletion that has returned
    deleted :
        (key : String) (seen : Bool) (bytes : List ℕ) (s t : S)
        → expired key (p.from_der bytes) ≡ true
        → some bytes ≡ view s key
        → Cleaned seen s
        → view t j ≡ (if key == j then none else view s j)
        → Cleaned (key == j || seen) t
    deleted key seen bytes s t old found c e = elim (Bool-cases (key == j)) [
      | inl same ↦
          let here = (eq_iff key j).0 same in
          let now_none = e ∙ ap (λ b. if b then none else view s j) same in
          let due = subst (λ k. Expired k bytes) here (expired_lem key bytes _ refl old) in
          record {
            safe = inr (
              now_none,
              (bytes, entry_is (view s j) bytes c.safe (at_key key s _ found here), due),
            );
            gone = λ _ _. now_none;
          }
      | inr differ ↦
          settle key seen t (moved seen s t (e ∙ ap (λ b. if b then none else view s j) differ) c)
            (λ same d. absurd (apart _ ((eq_iff key j).1 same) differ))
    ]

    deletes :
        (key : String) (seen : Bool) (bytes : List ℕ) (s t : S) (r : Outcome (Unit {0}))
        → expired key (p.from_der bytes) ≡ true
        → some bytes ≡ view s key
        → Cleaned seen s
        → After
            (λ _ t. (i : String) → view t i ≡ (if key == i then none else view s i))
            (λ t. (i : String) → view t i ≡ view s i)
            r
            t
        → After (λ _. Cleaned (key == j || seen)) (Cleaned false) r t
    deletes key seen bytes s t (ok a) old found c h = deleted key seen bytes s t old found c (h j)
    deletes key seen bytes s t (err x) old found c h = unsee seen t (moved seen s t (h j) c)
    deletes key seen bytes s t (panic m) old found c h = unsee seen t (moved seen s t (h j) c)

    step :
        (key : String) (seen : Bool) (found : Option (List ℕ))
        → Triple
            (λ s. (found ≡ view s key) × Cleaned seen s)
            (removal key found)
            (λ _. Cleaned (key == j || seen))
            (Cleaned false)
    step key seen none = record {
      run = λ s (e, c). settle key seen s c (λ same d. at_key key s none e same);
    }
    step key seen (some bytes) =
        if_rule (expired key (p.from_der bytes))
          (λ old. record {
            run = λ s (e, c). deletes key seen bytes s _ _ old e c (laws.deletes key s);
          })
          (λ fresh. record { run = λ s (e, c). kept_lem key seen bytes s fresh e c })

    loads :
        (key : String) (seen : Bool) (s t : S) (r : Outcome (Option (List ℕ)))
        → Cleaned seen s
        → After
            (λ o t. (o ≡ view s key) × ((i : String) → view t i ≡ view s i))
            (λ t. (i : String) → view t i ≡ view s i)
            r
            t
        → After (λ o t. (o ≡ view t key) × Cleaned seen t) (Cleaned false) r t
    loads key seen s t (ok o) c (e, h) = (e ∙ sym (h key), moved seen s t (h j) c)
    loads key seen s t (err x) c h = unsee seen t (moved seen s t (h j) c)
    loads key seen s t (panic m) c h = unsee seen t (moved seen s t (h j) c)

    either : (a b c : Bool) (s : S) → Cleaned (a || (b || c)) s → Cleaned ((b || a) || c) s
    either a b c s h = record { safe = h.safe; gone = λ e d. h.gone (ground (arith, e)) d }

    clean-Cleaned :
        (keys : List String) (seen : Bool)
        → Triple
            (Cleaned seen)
            (cleaning keys)
            (λ _. Cleaned (contains keys j || seen))
            (Cleaned false)
    unfolding clean
    clean-Cleaned [] seen = record { run = λ s h. h }
    clean-Cleaned (key ∷ keys) seen =
        bind_rule (record { run = λ s c. loads key seen s _ _ c (laws.loads key s) })
          (λ found. bind_rule (step key seen found) (λ _.
            weaken_rule (λ _ s. either (contains keys j) (key == j) seen s)
              (clean-Cleaned keys (key == j || seen))))

    record Swept (t : S) : Type 0 where
      safe : (view t j ≡ entry) ⊎ ((view t j ≡ none) × Due)
      gone : starts_with j "cert:" ≡ true → Due → view t j ≡ none

    Listed : List String → S → Type 0
    Listed keys s =
        (view s j ≡ entry) × (starts_with j "cert:" ≡ true → Due → contains keys j ≡ true)

    lists :
        (s t : S) (r : Outcome (List String))
        → view s j ≡ entry
        → After
            (λ ks t.
              ((i : String) → view t i ≡ view s i)
              × ((i : String) (v : List ℕ)
                  → view s i ≡ some v
                  → starts_with i "cert:" ≡ true
                  → contains ks i ≡ true))
            (λ t. (i : String) → view t i ≡ view s i)
            r
            t
        → After Listed (Cleaned false) r t
    unfolding Listed
    lists s t (ok ks) e (same, all) =
        (same j ∙ e, λ starts (bytes, here, x). all j bytes (e ∙ here) starts)
    lists s t (err x) e same = first_of t (same j ∙ e)
    lists s t (panic m) e same = first_of t (same j ∙ e)

    perform_cleanup-Swept : Triple (λ s. view s j ≡ entry) cleanup (λ _. Swept) (Cleaned false)
    unfolding perform_cleanup clean Listed
    perform_cleanup-Swept =
        bind_rule {Q = Listed}
          (record { run = λ s e. lists s _ _ e (laws.lists "cert:" s (inr refl)) })
          (λ keys. record {
            run = λ s (e, all).
                (weaken_rule {R = λ _. Swept}
                    (λ _ t c. record {
                      safe = c.safe;
                      gone = λ starts d. c.gone (ground (arith, all starts d)) d;
                    })
                    (clean-Cleaned keys false)).run
                  s (first_of s e);
          })

    ends :
        (r : Outcome (Unit {0})) (t : S)
        → After (λ _. Swept) (Cleaned false) r t
        → ((view t j ≡ entry) ⊎ ((view t j ≡ none) × Due))
          × (r ≡ ok tt → starts_with j "cert:" ≡ true → Due → view t j ≡ none)
    ends (ok a) t w = (w.safe, λ _. w.gone)
    ends (err e) t c = (c.safe, λ h. cc)
    ends (panic m) t c = (c.safe, λ h. cc)

  -- On a backend that is a map under the program's prefixes (those in memory and in Redis are; that of
  -- the files is not, since it lists other names than the keys), however the cleanup ends, what is
  -- under a key is left as it was, unless it was the DER form of a certificate that had expired when
  -- its turn came and is now gone; and where it ends without an error, every such value under a key of
  -- the store's is gone. The bundles that the store itself saves have another form.
  pub perform_cleanup-Expired :
      (view : S → String → Option (List ℕ)) (laws : IsMap backend view) (j : String) (s : S)
      → let (r, t) = perform_cleanup p backend clock s in
        ((view t j ≡ view s j)
          ⊎ ((view t j ≡ none)
              × ((b : List ℕ) × (view s j ≡ some b) × IsExpired p backend clock j b)))
        × (r ≡ ok tt
            → starts_with j "cert:" ≡ true
            → ((b : List ℕ) × (view s j ≡ some b) × IsExpired p backend clock j b)
            → view t j ≡ none)
  perform_cleanup-Expired view laws j s =
      ends view laws j (view s j) _ _ ((perform_cleanup-Swept view laws j (view s j)).run s refl)
