-- ===== src/Vpc/Limiter.antt =====
-- pkg/vpc/ratelimiter.go: the semaphore around the calls of the VPC interface, and the methods of the
-- client as its callers. Each acquires a slot, gives up where its context is cancelled, and
-- releases the slot behind its call; CreateVNI may call UpdateVNI in between, which does the same.
pub mod Slots
pub mod Stuck
mod Tests
use roks_vpc_cni.Base.{ℕ, zero, suc, ◌≡◌, Option, none, some, List, [], ◌∷◌, ltb, if◌then◌else◌}

-- The channel: its capacity, and how many values it holds.
pub record RateLimiter : Type 0 where
  pub capacity : ℕ
  pub taken : ℕ

unfoldable pub new_rate_limiter : ℕ → RateLimiter
new_rate_limiter max_concurrent = record { capacity = max_concurrent; taken = 0 }

-- The send of Acquire; nothing while it blocks.
unfoldable pub acquire : RateLimiter → Option RateLimiter
acquire r = if ltb r.taken r.capacity then some (record r { taken = suc r.taken }) else none

-- The receive of Release; nothing while it blocks.
abbrev pub returned : ℕ → ℕ → Option RateLimiter
returned capacity zero = none
returned capacity (suc n) = some (record { capacity = capacity; taken = n })

unfoldable pub release : RateLimiter → Option RateLimiter
release r = returned r.capacity r.taken

-- `renaming` is CreateVNI with its slot, in front of the Acquire of UpdateVNI; `nested` is behind it.
pub data Caller : Type 0 where
  idle waiting calling renaming nested : Caller

pub data CallerStep : RateLimiter → Caller → RateLimiter → Caller → Type 0 where
  ask : {r : RateLimiter} → CallerStep r idle r waiting
  enter : {r r' : RateLimiter} → acquire r ≡ some r' → CallerStep r waiting r' calling
  cancel : {r : RateLimiter} → CallerStep r waiting r idle
  leave : {r r' : RateLimiter} → release r ≡ some r' → CallerStep r calling r' idle
  rename : {r : RateLimiter} → CallerStep r calling r renaming
  enter_nested : {r r' : RateLimiter} → acquire r ≡ some r' → CallerStep r renaming r' nested
  cancel_nested : {r : RateLimiter} → CallerStep r renaming r calling
  leave_nested : {r r' : RateLimiter} → release r ≡ some r' → CallerStep r nested r' calling

-- One of the callers does so.
pub data SystemStep : RateLimiter → List Caller → RateLimiter → List Caller → Type 0 where
  here :
      {r r' : RateLimiter} {c c' : Caller} {cs : List Caller}
      → CallerStep r c r' c'
      → SystemStep r (c ∷ cs) r' (c' ∷ cs)
  there :
      {r r' : RateLimiter} {c : Caller} {cs cs' : List Caller}
      → SystemStep r cs r' cs'
      → SystemStep r (c ∷ cs) r' (c ∷ cs')

-- So many callers, all idle.
unfoldable pub all_idle : ℕ → List Caller
all_idle zero = []
all_idle (suc n) = idle ∷ all_idle n

-- The states reached with a limit and a number of callers.
pub data Reached (limit callers : ℕ) : RateLimiter → List Caller → Type 0 where
  start : Reached limit callers (new_rate_limiter limit) (all_idle callers)
  then_step :
      {r r' : RateLimiter} {cs cs' : List Caller}
      → Reached limit callers r cs
      → SystemStep r cs r' cs'
      → Reached limit callers r' cs'
