-- ===== src/Storage/Encrypted.antt =====
-- src/storage/encrypted.rs: values are sealed with AES-256-GCM on their way into a backend.
use acmex.Base.{
  ℕ, zero, suc, String, ◌≡◌, refl, ap, subst, ◌∙◌, ◌==◌, eq_iff, Bool, true, false, not, Option,
  none, some, List, [], ◌∷◌, ◌++◌, ltb, length, length-append, if◌then◌else◌, arith,
}
use acmex.Error.{AcmeError}
use acmex.Act.{Act, Outcome, Answer, done, ok, err, panic, pure, or_raise, refuse_if, ◌>>=◌, ◌>>◌}
use acmex.Act.Triple.{Triple, After, Anything, bind_rule, any_rule, raised_rule, returned}
use acmex.Storage.Backend.{Backend, IsMap, loaded_view}

-- What `aws_lc_rs` and `rand` do for the wrapper, with its key: whether the key is accepted, sealing
-- and opening under a nonce, and the n-th nonce that is drawn.
pub record Aead : Type 0 where
  pub key_valid : Bool
  pub seal : List ℕ → List ℕ → Answer (List ℕ)
  pub unseal : List ℕ → List ℕ → Answer (List ℕ)
  pub nonce : ℕ → List ℕ

-- `split_at(12)`, of which both halves are asked for
abbrev pub take : ℕ → List ℕ → List ℕ
take zero xs = []
take (suc n) [] = []
take (suc n) (x ∷ xs) = x ∷ take n xs

abbrev pub drop : ℕ → List ℕ → List ℕ
drop zero xs = xs
drop (suc n) [] = []
drop (suc n) (x ∷ xs) = drop n xs

-- The backend's state, and how many nonces were drawn.
pub record Sealed (S : Type 0) : Type 0 where
  pub inner : S
  pub drawn : ℕ

module _ {S : Type 0} (aead : Aead) (backend : Backend S) where
  open aead use {key_valid, seal, unseal, nonce}

  -- a call of the underlying backend
  abbrev on_inner : {A : Type 0} → Act S A → Act (Sealed S) A
  on_inner m s = let (r, t) = m s.inner in (r, record s { inner = t })

  draw : Act (Sealed S) (List ℕ)
  draw s = (ok (nonce s.drawn), record s { drawn = suc s.drawn })

  unfoldable pub encrypt : List ℕ → Act (Sealed S) (List ℕ)
  unfolding draw
  encrypt plaintext = do
    refuse_if (not key_valid) (AcmeError.crypto "Invalid encryption key")
    nonce_bytes ← draw
    in_out ← or_raise (seal nonce_bytes plaintext) (λ _. AcmeError.crypto "Encryption failed")
    pure (nonce_bytes ++ in_out)

  unfoldable pub decrypt : List ℕ → Act (Sealed S) (List ℕ)
  decrypt ciphertext = do
    refuse_if (ltb (length ciphertext) 12) (AcmeError.crypto "Ciphertext too short")
    refuse_if (not key_valid) (AcmeError.crypto "Invalid encryption key")
    or_raise (unseal (take 12 ciphertext) (drop 12 ciphertext))
        (λ _. AcmeError.crypto "Decryption failed")

  decrypt_some : Option (List ℕ) → Act (Sealed S) (Option (List ℕ))
  unfolding decrypt
  decrypt_some none = pure none
  decrypt_some (some ciphertext) = do plaintext ← decrypt ciphertext; pure (some plaintext)

  unfoldable pub encrypted_storage : Backend (Sealed S)
  unfolding encrypt decrypt_some
  encrypted_storage = record {
    store =
        λ key value. encrypt value >>= λ encrypted. on_inner (Backend.store backend key encrypted);
    load = λ key. on_inner (Backend.load backend key) >>= decrypt_some;
    delete = λ key. on_inner (Backend.delete backend key);
    list = λ prefix. on_inner (Backend.list backend prefix);
  }

take-append : (n : ℕ) (xs ys : List ℕ) → length xs ≡ n → take n (xs ++ ys) ≡ xs
take-append zero [] ys e = refl
take-append zero (x ∷ xs) ys e = ground (arith, e)
take-append (suc n) [] ys e = ground (arith, e)
take-append (suc n) (x ∷ xs) ys e = ap (λ zs. x ∷ zs) (take-append n xs ys (omega (arith, e)))

drop-append : (n : ℕ) (xs ys : List ℕ) → length xs ≡ n → drop n (xs ++ ys) ≡ ys
drop-append zero [] ys e = refl
drop-append zero (x ∷ xs) ys e = ground (arith, e)
drop-append (suc n) [] ys e = ground (arith, e)
drop-append (suc n) (x ∷ xs) ys e = drop-append n xs ys (omega (arith, e))

-- What is documented of the cipher: the key of 32 bytes is accepted, a nonce has 12 bytes, and
-- opening undoes sealing.
pub record IsAead (aead : Aead) : Type 0 where
  pub accepts : Aead.key_valid aead ≡ true
  pub nonce-length : (n : ℕ) → length (Aead.nonce aead n) ≡ 12
  pub unseal-seal :
      (nonce plaintext sealed : List ℕ)
      → Aead.seal aead nonce plaintext ≡ done sealed
      → Aead.unseal aead nonce sealed ≡ done plaintext

module _ {S : Type 0} (aead : Aead) (backend : Backend S) (laws : IsAead aead) where
  open aead use {seal, nonce}

  long_enough : (n : ℕ) (sealed : List ℕ) → ltb (length (nonce n ++ sealed)) 12 ≡ false
  long_enough n sealed = ground (arith, length-append (nonce n) sealed, laws.nonce-length n)

  decrypt-sealed :
      (n : ℕ) (plaintext sealed : List ℕ) (s : Sealed S)
      → seal (nonce n) plaintext ≡ done sealed
      → decrypt aead backend (nonce n ++ sealed) s ≡ (ok plaintext, s)
  unfolding decrypt ◌>>=◌
  decrypt-sealed n plaintext sealed s e =
      rw
        (
          long_enough n sealed,
          laws.accepts,
          take-append 12 (nonce n) sealed (laws.nonce-length n),
          drop-append 12 (nonce n) sealed (laws.nonce-length n),
          laws.unseal-seal (nonce n) plaintext sealed e,
        )
        refl

  module _ (view : S → String → Option (List ℕ)) (map_laws : IsMap backend view) where
    -- The value stands sealed under the key.
    KeepsSealed : String → List ℕ → Sealed S → Type 0
    KeepsSealed key value s =
        (n : ℕ) × (sealed : List ℕ) × (seal (nonce n) value ≡ done sealed)
        × (view s.inner key ≡ some (nonce n ++ sealed))

    encrypt_rule :
        (value : List ℕ)
        → Triple Anything
            (encrypt aead backend value)
            (λ out s.
              (n : ℕ) × (sealed : List ℕ) × (seal (nonce n) value ≡ done sealed)
              × (out ≡ nonce n ++ sealed))
            Anything
    unfolding encrypt draw
    encrypt_rule value = bind_rule (any_rule _) (λ _.
        bind_rule {Q = λ out s. (n : ℕ) × (out ≡ nonce n)} (record { run = λ s h. (s.drawn, refl) })
          (λ nonce_bytes.
            bind_rule
              (raised_rule (λ s h. tt)
                (λ in_out s.
                  (n : ℕ) × (nonce_bytes ≡ nonce n) × (seal nonce_bytes value ≡ done in_out))
                _ _ (λ in_out e s h. (h.0, h.1, e)))
              (λ in_out. record {
                run = λ s h. (
                  h.0,
                  in_out,
                  subst (λ bytes. seal bytes value ≡ done in_out) h.1 h.2,
                  ap (λ bytes. bytes ++ in_out) h.1,
                );
              })))

    stored_sealed :
        (key : String) (value out : List ℕ) (n drawn : ℕ) (sealed : List ℕ) (r : Outcome (Unit {0}))
        (t : S) (before : S)
        → seal (nonce n) value ≡ done sealed
        → out ≡ nonce n ++ sealed
        → After
            (λ _ t. (j : String) → view t j ≡ (if key == j then some out else view before j))
            (λ t. (j : String) → view t j ≡ view before j)
            r
            t
        → After (λ _. KeepsSealed key value) Anything r (record { inner = t; drawn = drawn })
    unfolding KeepsSealed
    stored_sealed key value out n drawn sealed (ok a) t before sealing e h =
        (n, sealed, sealing, h key ∙ rw ((eq_iff key key).1 refl, e) refl)
    stored_sealed key value out n drawn sealed (err a) t before sealing e h = tt
    stored_sealed key value out n drawn sealed (panic a) t before sealing e h = tt

    store-KeepsSealed :
        (key : String) (value : List ℕ)
        → Triple Anything
            (Backend.store (encrypted_storage aead backend) key value)
            (λ _. KeepsSealed key value)
            Anything
    unfolding encrypted_storage
    store-KeepsSealed key value = bind_rule (encrypt_rule value) (λ out. record {
      run = λ s h.
          stored_sealed key value out h.0 s.drawn h.1 _ _ s.inner h.2 h.3
            (map_laws.stores key out s.inner);
    })

    unsealed :
        (key : String) (value : List ℕ) (s : Sealed S) (o : Option (List ℕ)) (u : S)
        → KeepsSealed key value s
        → Backend.load backend key s.inner ≡ (ok o, u)
        → o ≡ view s.inner key
        → Backend.load (encrypted_storage aead backend) key s
          ≡ (ok (some value), record s { inner = u })
    unfolding encrypted_storage decrypt_some KeepsSealed ◌>>=◌
    unsealed key value s o u h e same =
        rw (e, same, h.3, decrypt-sealed h.0 value h.1 (record s { inner = u }) h.2) refl

    -- For a cipher that does what is documented of it and a backend that is a map: after a store that
    -- succeeded, whenever the backend underneath loads the key, the wrapper loads the value stored.
    pub load-store :
        (key : String) (value : List ℕ) (s t : Sealed S) (o : Option (List ℕ)) (u : S)
        → Backend.store (encrypted_storage aead backend) key value s ≡ (ok tt, t)
        → Backend.load backend key t.inner ≡ (ok o, u)
        → Backend.load (encrypted_storage aead backend) key t
          ≡ (ok (some value), record t { inner = u })
    load-store key value s t o u stored loaded =
        unsealed key value t o u (returned (store-KeepsSealed key value) s tt tt t stored) loaded
          (loaded_view map_laws key t.inner o u loaded)
