-- ===== src/Transport/Limiter.antt =====
-- `RequestLimiter` of src/transport/rate_limit.rs, whose test and increment are two atomic
-- operations that other threads come between.
use acmex.Base.{ℕ, zero, suc, ◌+◌, ◌-◌, ◌≤◌, ◌<◌, ◌≡◌, refl, Bool, true, ltb, ltb→lt, arith}

-- The limit, the shared counter, the threads that have passed `can_request` and not yet counted
-- themselves, and the guards that are alive.
pub record RequestLimiter : Type 0 where
  pub max_concurrent : ℕ
  pub current : ℕ
  pub passed : ℕ
  pub guards : ℕ

unfoldable pub new : ℕ → RequestLimiter
new max = record { max_concurrent = max; current = 0; passed = 0; guards = 0 }

unfoldable pub can_request : RequestLimiter → Bool
can_request s = ltb s.current s.max_concurrent

-- the first half of `start_request`, where `can_request` has said yes
unfoldable pub pass : RequestLimiter → RequestLimiter
pass s = record s { passed = suc s.passed }

-- the second half: `fetch_add`, and the guard
unfoldable pub start : RequestLimiter → RequestLimiter
start s = record s { passed = s.passed - 1; current = suc s.current; guards = suc s.guards }

-- `fetch_sub(1)` on 64 bits
abbrev lowered : ℕ → ℕ
lowered zero = 18446744073709551615
lowered (suc n) = n

-- `finish_request`, when a guard is dropped
unfoldable pub finish_request : RequestLimiter → RequestLimiter
finish_request s = record s { current = lowered s.current; guards = s.guards - 1 }

-- What the threads do to a limiter where at most so many are inside `start_request` at once.
pub data Step (threads : ℕ) (s : RequestLimiter) : RequestLimiter → Type 0 where
  passes : can_request s ≡ true → s.passed < threads → Step threads s (pass s)
  starts : 0 < s.passed → Step threads s (start s)
  finishes : 0 < s.guards → Step threads s (finish_request s)

pub data Reaches (threads : ℕ) (s : RequestLimiter) : RequestLimiter → Type 0 where
  here : Reaches threads s s
  then_step : {t u : RequestLimiter} → Reaches threads s t → Step threads t u → Reaches threads s u

-- The counter counts the guards, and what is counted or about to be stays within the limit and the
-- threads but one.
record IsLimited (threads max : ℕ) (s : RequestLimiter) : Type 0 where
  same_max : s.max_concurrent ≡ max
  counts : s.current ≡ s.guards
  within : s.current + s.passed ≤ max + (threads - 1)

new-IsLimited : (threads max : ℕ) → IsLimited threads max (new max)
unfolding new
new-IsLimited threads max = record { same_max = refl; counts = refl; within = omega arith }

lowered_lem : (current guards : ℕ) → current ≡ guards → 0 < guards → lowered current ≡ guards - 1
lowered_lem zero guards e alive = omega (arith, e, alive)
lowered_lem (suc n) guards e alive = omega (arith, e)

lowered_le :
    (current guards passed bound : ℕ)
    → current ≡ guards
    → 0 < guards
    → current + passed ≤ bound
    → lowered current + passed ≤ bound
lowered_le zero guards passed bound e alive h = omega (arith, e, alive)
lowered_le (suc n) guards passed bound e alive h = omega (arith, h)

Step-IsLimited :
    (threads max : ℕ) {s t : RequestLimiter}
    → IsLimited threads max s
    → Step threads s t
    → IsLimited threads max t
unfolding can_request pass start finish_request
Step-IsLimited threads max {s} h (passes can room) = record {
  same_max = h.same_max;
  counts = h.counts;
  within = omega (arith, h.same_max, room, ltb→lt _ _ can);
}
Step-IsLimited threads max {s} h (starts some_passed) = record {
  same_max = h.same_max;
  counts = omega (arith, h.counts);
  within = omega (arith, h.within, some_passed);
}
Step-IsLimited threads max {s} h (finishes alive) = record {
  same_max = h.same_max;
  counts = lowered_lem s.current s.guards h.counts alive;
  within = lowered_le s.current s.guards s.passed _ h.counts alive h.within;
}

Reaches-IsLimited :
    (threads max : ℕ) {s : RequestLimiter} → Reaches threads (new max) s → IsLimited threads max s
Reaches-IsLimited threads max here = new-IsLimited threads max
Reaches-IsLimited threads max (then_step r step) =
    Step-IsLimited threads max (Reaches-IsLimited threads max r) step

-- From a new limiter, in every order of the threads' steps, the counter is the number of guards
-- alive, and there are at most as many as the limit and the threads inside `start_request` at once,
-- less one: with one thread at a time, no more than the limit.
pub guards-bounded :
    (threads max : ℕ) (s : RequestLimiter)
    → Reaches threads (new max) s
    → (s.current ≡ s.guards) × (s.guards ≤ max + (threads - 1))
guards-bounded threads max s r =
    let h = Reaches-IsLimited threads max r in (h.counts, omega (arith, h.counts, h.within))
