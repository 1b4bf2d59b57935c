-- ===== src/Storage/Migration.antt =====
-- src/storage/migration.rs: copying every entry of one backend to another.
use acmex.Base.{
  ℕ, suc, String, ◌<>◌, ◌≡◌, refl, inl, sym, subst, ◌∙◌, ◌==◌, eq_iff, Bool, true, false, ◌||◌, ltb,
  Option, none, some, List, [], ◌∷◌, if◌then◌else◌, arith,
}
use acmex.Error.{AcmeError}
use acmex.Act.{Act, Outcome, ok, err, panic, pure, catch, refuse_if, ◌>>=◌}
use acmex.Act.Triple.{Triple, After, catch_rule, weaken_rule, refused_rule, bind_rule, returned}
use text.Mathlib.Text.{starts_with}
use text.Mathlib.TextPositions.{starts_with-append}
use text.Mathlib.TextLemmas.{nil-append}
use acmex.Storage.Backend.{Backend, IsMap, contains}

-- The states of the source and of the destination.
pub record Pair (S D : Type 0) : Type 0 where
  pub source : S
  pub destination : D

module _ {S D : Type 0} (show_number : ℕ → String) (source : Backend S)
    (destination : Backend D) where
  abbrev on_source : {A : Type 0} → Act S A → Act (Pair S D) A
  on_source m s = let (r, t) = m s.source in (r, record s { source = t })

  abbrev on_destination : {A : Type 0} → Act D A → Act (Pair S D) A
  on_destination m s = let (r, t) = m s.destination in (r, record s { destination = t })

  -- one entry, with the failures so far and with it
  unfoldable pub copied : String → ℕ → Option (List ℕ) → Act (Pair S D) ℕ
  copied key failed none = pure failed
  copied key failed (some entry) =
      catch (on_destination (Backend.store destination key entry)) (λ _. pure failed)
        (λ _. pure (suc failed))

  unfoldable pub copy : String → ℕ → Act (Pair S D) ℕ
  unfolding copied
  copy key failed =
      catch (on_source (Backend.load source key)) (copied key failed) (λ _. pure (suc failed))

  -- `for key in keys`, with the failures counted before
  unfoldable pub copy_all : List String → ℕ → Act (Pair S D) ℕ
  unfolding copy
  copy_all [] failed = pure failed
  copy_all (key ∷ keys) failed = do failed' ← copy key failed; copy_all keys failed'

  unfoldable pub migrate : Act (Pair S D) (Unit {0})
  unfolding copy_all
  migrate = do
    keys ← on_source (Backend.list source "")
    failed ← copy_all keys 0
    refuse_if (ltb 0 failed)
        (AcmeError.storage ("Migration finished with " <> show_number failed <> " errors"))

-- Every text begins with the empty one.
pub starts_with-empty : (s : String) → starts_with s "" ≡ true
starts_with-empty s = subst (λ t. starts_with t "" ≡ true) (nil-append s) (starts_with-append "" s)

module _ {S D : Type 0} (show_number : ℕ → String) {source : Backend S} {destination : Backend D}
    {view_s : S → String → Option (List ℕ)} {view_d : D → String → Option (List ℕ)}
    (source_laws : IsMap source view_s) (destination_laws : IsMap destination view_d)
    (entries : String → Option (List ℕ)) (j : String) (v : List ℕ) (has : entries j ≡ some v) where
  -- The source holds what it held.
  Agrees : Pair S D → Type 0
  Agrees s = (i : String) → view_s s.source i ≡ entries i

  -- Besides, if the key was seen and nothing has failed, its value has arrived.
  record Progress (seen : Bool) (failed : ℕ) (s : Pair S D) : Type 0 where
    agrees : Agrees s
    arrived : failed ≡ 0 → seen ≡ true → view_d s.destination j ≡ some v

  fails_once :
      (seen : Bool) (failed : ℕ)
      → Triple Agrees (pure {S = Pair S D} (suc failed)) (Progress seen) (λ _. Unit)
  fails_once seen failed = record {
    run = λ s h. record { agrees = h; arrived = λ none_failed. ground (arith, none_failed) };
  }

  arrival :
      (same seen : Bool) (entry : List ℕ) (o : Option (List ℕ))
      → (same ≡ true → entries j ≡ some entry)
      → (seen ≡ true → o ≡ some v)
      → (same || seen) ≡ true
      → (if same then some entry else o) ≡ some v
  arrival true seen entry o mine before now = sym (mine refl) ∙ has
  arrival false seen entry o mine before now = before now

  stored :
      (key : String) (failed : ℕ) (seen : Bool) (entry : List ℕ) (r : Outcome (Unit {0})) (d t : D)
      (s : S)
      → entries key ≡ some entry
      → Progress seen failed (record { source = s; destination = d })
      → After
          (λ _ t. (i : String) → view_d t i ≡ (if key == i then some entry else view_d d i))
          (λ t. (i : String) → view_d t i ≡ view_d d i)
          r
          t
      → After
          (λ _. Progress (key == j || seen) failed)
          Agrees
          r
          (record { source = s; destination = t })
  unfolding Agrees
  stored key failed seen entry (ok a) d t s e h stores = record {
    agrees = h.agrees;
    arrived = λ none_failed seen_now.
        stores j
        ∙ arrival (key == j) seen entry (view_d d j)
            (λ same. subst (λ i. entries i ≡ some entry) ((eq_iff key j).0 same) e)
            (λ was. h.arrived none_failed was) seen_now;
  }
  stored key failed seen entry (err a) d t s e h stores = h.agrees
  stored key failed seen entry (panic a) d t s e h stores = h.agrees

  absent_lem :
      (same seen : Bool) (o : Option (List ℕ))
      → (same ≡ true → entries j ≡ none)
      → (seen ≡ true → o ≡ some v)
      → (same || seen) ≡ true
      → o ≡ some v
  absent_lem true seen o gone before now = ground (arith, has, gone refl)
  absent_lem false seen o gone before now = before now

  copied-Progress :
      (key : String) (failed : ℕ) (seen : Bool) (o : Option (List ℕ))
      → o ≡ entries key
      → Triple
          (Progress seen failed)
          (copied show_number source destination key failed o)
          (λ n. Progress (key == j || seen) n)
          (λ _. Unit)
  unfolding copied
  copied-Progress key failed seen none e = record {
    run = λ s h. record {
      agrees = h.agrees;
      arrived = λ none_failed now.
          absent_lem (key == j) seen _
            (λ same. subst (λ i. entries i ≡ none) ((eq_iff key j).0 same) (sym e))
            (λ was. h.arrived none_failed was) now;
    };
  }
  copied-Progress key failed seen (some entry) e =
      catch_rule {Q = λ _. Progress (key == j || seen) failed} {E = Agrees}
        (record {
          run = λ s h.
              stored key failed seen entry _ s.destination _ s.source (sym e) h
                (destination_laws.stores key entry s.destination);
        })
        (λ _. record { run = λ s h. h }) (λ _. fails_once (key == j || seen) failed)

  loaded :
      (key : String) (failed : ℕ) (seen : Bool) (r : Outcome (Option (List ℕ))) (s : Pair S D)
      (t : S)
      → Progress seen failed s
      → After
          (λ o t. (o ≡ view_s s.source key) × ((i : String) → view_s t i ≡ view_s s.source i))
          (λ t. (i : String) → view_s t i ≡ view_s s.source i)
          r
          t
      → After (λ o s. (o ≡ entries key) × Progress seen failed s) Agrees r (record s { source = t })
  unfolding Agrees
  loaded key failed seen (ok o) s t h l =
      (l.0 ∙ h.agrees key, record { agrees = λ i. l.1 i ∙ h.agrees i; arrived = h.arrived })
  loaded key failed seen (err e) s t h l = λ i. l i ∙ h.agrees i
  loaded key failed seen (panic m) s t h l = λ i. l i ∙ h.agrees i

  copy-Progress :
      (key : String) (failed : ℕ) (seen : Bool)
      → Triple
          (Progress seen failed)
          (copy show_number source destination key failed)
          (λ n. Progress (key == j || seen) n)
          (λ _. Unit)
  unfolding copy
  copy-Progress key failed seen =
      catch_rule {Q = λ o s. (o ≡ entries key) × Progress seen failed s} {E = Agrees}
        (record { run = λ s h. loaded key failed seen _ s _ h (source_laws.loads key s.source) })
        (λ o. record { run = λ s h. (copied-Progress key failed seen o h.0).run s h.1 })
        (λ _. fails_once (key == j || seen) failed)

  Progress-or :
      (a b c : Bool) (n : ℕ) (s : Pair S D)
      → Progress (a || (b || c)) n s
      → Progress ((b || a) || c) n s
  Progress-or a b c n s h = record {
    agrees = h.agrees;
    arrived = λ none_failed now. h.arrived none_failed (ground (arith, now));
  }

  copy_all-Progress :
      (keys : List String) (failed : ℕ) (seen : Bool)
      → Triple
          (Progress seen failed)
          (copy_all show_number source destination keys failed)
          (λ n. Progress (contains keys j || seen) n)
          (λ _. Unit)
  unfolding copy_all
  copy_all-Progress [] failed seen = record { run = λ s h. h }
  copy_all-Progress (key ∷ keys) failed seen = bind_rule (copy-Progress key failed seen) (λ n.
      weaken_rule (λ m s. Progress-or (contains keys j) (key == j) seen m s)
        (copy_all-Progress keys n (key == j || seen)))

  listed :
      (r : Outcome (List String)) (s : Pair S D) (t : S)
      → Agrees s
      → After
          (λ ks t.
            ((i : String) → view_s t i ≡ view_s s.source i)
            × ((i : String) (u : List ℕ)
                → view_s s.source i ≡ some u
                → starts_with i "" ≡ true
                → contains ks i ≡ true))
          (λ t. (i : String) → view_s t i ≡ view_s s.source i)
          r
          t
      → After
          (λ ks s. (contains ks j ≡ true) × Progress false 0 s)
          (λ _. Unit)
          r
          (record s { source = t })
  unfolding Agrees
  listed (ok ks) s t h l = (
    l.1 j v (h j ∙ has) (starts_with-empty j),
    record { agrees = λ i. l.0 i ∙ h i; arrived = λ _ seen. ground (arith, seen) },
  )
  listed (err e) s t h l = tt
  listed (panic m) s t h l = tt

  migrate-Agrees :
      Triple Agrees
        (migrate show_number source destination)
        (λ _ s. Agrees s × (view_d s.destination j ≡ some v))
        (λ _. Unit)
  unfolding migrate
  migrate-Agrees =
      bind_rule (record { run = λ s h. listed _ s _ h (source_laws.lists "" s.source (inl refl)) })
        (λ keys. record {
          run = λ s h.
              (bind_rule (copy_all-Progress keys 0 false) (λ failed.
                  refused_rule (λ s h. tt) _ (ltb 0 failed) _
                    (λ none_failed s' done. (
                      done.agrees,
                      done.arrived (ground (arith, none_failed)) (ground (arith, h.0)),
                    )))).run
                s h.1;
        })

module _ {S D : Type 0} (show_number : ℕ → String) {source : Backend S} {destination : Backend D}
    {view_s : S → String → Option (List ℕ)} {view_d : D → String → Option (List ℕ)}
    (source_laws : IsMap source view_s) (destination_laws : IsMap destination view_d) where
  -- Between backends that are maps as far as they answer and list their keys (those in memory and in
  -- Redis are; that of the files is not, since it lists other names than the keys), where a migration
  -- succeeds, every entry of the source is in the destination with its value, and the source holds it
  -- still, although each load and each store could have failed.
  pub migrate-copies :
      (s t : Pair S D) (key : String) (value : List ℕ)
      → migrate show_number source destination s ≡ (ok tt, t)
      → view_s s.source key ≡ some value
      → (view_d t.destination key ≡ some value) × (view_s t.source key ≡ some value)
  unfolding Agrees
  migrate-copies s t key value e has =
      let (agrees, arrived) =
        returned
          (migrate-Agrees show_number source_laws destination_laws (view_s s.source) key value has)
          s (λ i. refl) tt t e in
      (arrived, agrees key ∙ has)
