-- ===== src/Protocol/NoncePool.antt =====
-- src/protocol/nonce_pool.rs: a queue of nonces, fetched ahead from the nonce manager.
use acmex.Base.{
  ℕ, zero, suc, ◌+◌, ◌-◌, ◌≤◌, String, ◌≡◌, refl, ap, sym, subst, ◌∙◌, append-nil, append_assoc,
  List, [], ◌∷◌, ◌++◌, Bool, true, false, ltb, leb, length, length-append, if◌then◌else◌, arith,
}
use acmex.Act.{Act, Outcome, ok, err, panic, pure, resume, ◌>>=◌, ◌>>◌}
use acmex.Act.Triple.{Triple, After, bind_rule}
use acmex.Net.{Io, World}
use acmex.Platform.{Platform}
use acmex.Protocol.Nonce

-- The queue, front first, and the state of the nonce manager behind it. The queue stays locked
-- while it is refilled.
pub record PoolState : Type 0 where
  pub nonces : List String
  pub world : World

pub record NoncePool : Type 0 where
  pub nonce_url : String
  pub min_size : ℕ
  pub max_size : ℕ

-- a call of the nonce manager
abbrev on_world : {A : Type 0} → Io A → Act PoolState A
on_world m s = let (r, w) = m s.world in (r, record s { world = w })

abbrev push_back : String → Act PoolState (Unit {0})
push_back nonce s = (ok tt, record s { nonces = s.nonces ++ nonce ∷ [] })

module _ {Key : Type 0} (p : Platform Key) (q : NoncePool) where
  open q use {nonce_url, min_size, max_size}

  fetch_one : Act PoolState String
  fetch_one = on_world (Nonce.get_nonce p nonce_url)

  -- The nonce, and whether a task that refills the pool was spawned.
  unfoldable pub take : List String → Act PoolState (String × Bool)
  unfolding fetch_one
  take [] s = (fetch_one >>= λ nonce. pure (nonce, false)) s
  take (nonce ∷ rest) s = (ok (nonce, ltb (length rest) min_size), record s { nonces = rest })

  unfoldable pub get_nonce : Act PoolState (String × Bool)
  unfolding take
  get_nonce s = take s.nonces s

  -- `for _ in 0..to_fetch`
  unfoldable pub fill : ℕ → Act PoolState (Unit {0})
  unfolding fetch_one
  fill zero = pure tt
  fill (suc left) = do nonce ← fetch_one; push_back nonce; fill left

  -- `self.max_size - n.len()` panics where the queue is longer than `max_size`.
  unfoldable pub refill : Act PoolState (Unit {0})
  unfolding fill
  refill s =
      if leb (length s.nonces) max_size
      then fill (max_size - length s.nonces) s
      else (panic "attempt to subtract with overflow", s)

  -- The queue has kept its front, and has room for so many more.
  record HasRoom (front : List String) (left : ℕ) (s : PoolState) : Type 0 where
    added : List String
    begins : s.nonces ≡ front ++ added
    room : length s.nonces + left ≡ max_size

  -- The queue has kept its front, and is not over its size.
  pub record IsExtended (front : List String) (s : PoolState) : Type 0 where
    pub added : List String
    pub begins : s.nonces ≡ front ++ added
    pub bounded : length s.nonces ≤ max_size

  module _ (front : List String) where
    HasRoom-IsExtended : (left : ℕ) (s : PoolState) → HasRoom front left s → IsExtended front s
    HasRoom-IsExtended left s h = record {
      added = h.added;
      begins = h.begins;
      bounded = omega (arith, h.room);
    }

    fetched :
        (left : ℕ) (s : PoolState) (r : Outcome String) (w : World)
        → HasRoom front left s
        → After (λ _. HasRoom front left) (IsExtended front) r (record s { world = w })
    fetched left s (ok a) w h = record { added = h.added; begins = h.begins; room = h.room }
    fetched left s (err e) w h = record {
      added = h.added;
      begins = h.begins;
      bounded = omega (arith, h.room);
    }
    fetched left s (panic m) w h = record {
      added = h.added;
      begins = h.begins;
      bounded = omega (arith, h.room);
    }

    fetch_one_rule :
        (left : ℕ)
        → Triple (HasRoom front left) fetch_one (λ _. HasRoom front left) (IsExtended front)
    unfolding fetch_one
    fetch_one_rule left = record { run = λ s h. fetched left s _ _ h }

    push_back_rule :
        (nonce : String) (left : ℕ)
        → Triple
            (HasRoom front (suc left))
            (push_back nonce)
            (λ _. HasRoom front left)
            (IsExtended front)
    push_back_rule nonce left = record {
      run = λ s h. record {
        added = h.added ++ nonce ∷ [];
        begins = ap (λ xs. xs ++ nonce ∷ []) h.begins ∙ append_assoc front h.added (nonce ∷ []);
        room = omega (arith, h.room, length-append s.nonces (nonce ∷ []));
      };
    }

    fill_rule :
        (left : ℕ)
        → Triple (HasRoom front left) (fill left) (λ _. HasRoom front 0) (IsExtended front)
    unfolding fill
    fill_rule zero = record { run = λ s h. h }
    fill_rule (suc left) =
        bind_rule (fetch_one_rule (suc left))
          (λ nonce. bind_rule (push_back_rule nonce left) (λ _. fill_rule left))

  refill_room :
      (s : PoolState) → length s.nonces ≤ max_size → HasRoom s.nonces (max_size - length s.nonces) s
  refill_room s h = record {
    added = [];
    begins = sym (append-nil s.nonces);
    room = omega (arith, h);
  }

  -- a length that is in bounds, as the test in `refill` sees it
  leb-true : (a b : ℕ) → a ≤ b → leb a b ≡ true
  leb-true a b h = ground (arith, h)

  refill_rule :
      (s : PoolState)
      → length s.nonces ≤ max_size
      → After (λ _. HasRoom s.nonces 0) (IsExtended s.nonces) (refill s).0 (refill s).1
  unfolding refill
  refill_rule s h =
      rw (leb-true _ _ h)
        ((fill_rule s.nonces (max_size - length s.nonces)).run s (refill_room s h))

  filled :
      (front : List String) (r : Outcome (Unit {0})) (s : PoolState)
      → After (λ _. HasRoom front 0) (IsExtended front) r s
      → IsExtended front s
  filled front (ok a) s h = HasRoom-IsExtended front 0 s h
  filled front (err e) s h = h
  filled front (panic m) s h = h

  -- Refilling a queue within its size leaves what was there in front and goes no further than the
  -- size, whether it succeeds, or stops at a nonce that cannot be fetched.
  pub refill-IsExtended :
      (s : PoolState) → length s.nonces ≤ max_size → IsExtended s.nonces (refill s).1
  refill-IsExtended s h = filled s.nonces (refill s).0 (refill s).1 (refill_rule s h)

  -- Where refilling a queue within its size succeeds, the queue has exactly its full size, with what
  -- was there in front.
  pub refill-fills :
      (s s' : PoolState)
      → length s.nonces ≤ max_size
      → refill s ≡ (ok tt, s')
      → (added : List String) × (s'.nonces ≡ s.nonces ++ added) × (length s'.nonces ≡ max_size)
  refill-fills s s' h e =
      let room =
        subst (λ out. After (λ _. HasRoom s.nonces 0) (IsExtended s.nonces) out.0 out.1) e
          (refill_rule s h) in
      (room.added, room.begins, omega (arith, room.room))

  kept_nonces :
      (bool : Bool) (r : Outcome String) (w : World) (nonces : List String)
      → PoolState.nonces
          (resume {B = String × Bool} r
            (λ n. pure (n, bool))
            (record { nonces = nonces; world = w })).1
        ≡ nonces
  kept_nonces b (ok a) w nonces = refl
  kept_nonces b (err e) w nonces = refl
  kept_nonces b (panic m) w nonces = refl

  take-shorter :
      (nonces : List String) (w : World)
      → length (PoolState.nonces (take nonces (record { nonces = nonces; world = w })).1)
        ≤ length nonces
  unfolding take fetch_one ◌>>=◌
  take-shorter [] w =
      rw (kept_nonces false (Nonce.get_nonce p nonce_url w).0 (Nonce.get_nonce p nonce_url w).1 [])
        (omega arith)
  take-shorter (n ∷ rest) w = omega arith

  -- the calls on the pool, of which the lock makes a sequence
  pub data Operation : Type 0 where
    gets_nonce refills : Operation

  abbrev pub after_all : List Operation → PoolState → PoolState
  after_all [] s = s
  after_all (gets_nonce ∷ rest) s = after_all rest (get_nonce s).1
  after_all (refills ∷ rest) s = after_all rest (refill s).1

  -- In every sequence of calls, whether they succeed or fail, a queue that is within its size stays
  -- within it, so that the subtraction in `refill` does not go below 0.
  pub after_all-bounded :
      (operations : List Operation) (s : PoolState)
      → length s.nonces ≤ max_size
      → length (PoolState.nonces (after_all operations s)) ≤ max_size
  unfolding get_nonce
  after_all-bounded [] s h = h
  after_all-bounded (gets_nonce ∷ rest) s h =
      after_all-bounded rest (get_nonce s).1 (omega (arith, h, take-shorter s.nonces s.world))
  after_all-bounded (refills ∷ rest) s h =
      after_all-bounded rest (refill s).1 (refill-IsExtended s h).bounded
