-- ===== src/Vpc/Limiter/Stuck.antt =====
-- Calls of CreateVNI that wait for each other.
use roks_vpc_cni.Base.{ℕ, zero, suc, ◌+◌, ◌<◌, ◌≡◌, refl, ap, none, some, List, [], ◌∷◌, All, arith}
use mathlib.Core.Path.{subst}
use roks_vpc_cni.Vpc.Limiter.{
  RateLimiter, new_rate_limiter, acquire, Caller, idle, renaming, ask, enter, rename, SystemStep,
  here, there, all_idle, Reached, start, then_step,
}
use roks_vpc_cni.Vpc.Limiter.Slots.{IsRenaming}

-- `k` callers in CreateVNI, in front of others.
unfoldable pub stuck_before : ℕ → List Caller → List Caller
stuck_before zero cs = cs
stuck_before (suc k) cs = renaming ∷ stuck_before k cs

stuck_step :
    (k : ℕ) {r r' : RateLimiter} {cs cs' : List Caller}
    → SystemStep r cs r' cs'
    → SystemStep r (stuck_before k cs) r' (stuck_before k cs')
unfolding stuck_before
stuck_step zero s = s
stuck_step (suc k) s = there (stuck_step k s)

stuck_snoc :
    (k : ℕ) (cs : List Caller) → stuck_before k (renaming ∷ cs) ≡ renaming ∷ stuck_before k cs
unfolding stuck_before
stuck_snoc zero cs = refl
stuck_snoc (suc k) cs = ap (λ ds. renaming ∷ ds) (stuck_snoc k cs)

abbrev with_taken : ℕ → ℕ → RateLimiter
with_taken limit n = record { capacity = limit; taken = n }

acquire_below :
    (limit n : ℕ) → n < limit → acquire (with_taken limit n) ≡ some (with_taken limit (suc n))
unfolding acquire
acquire_below limit n h = ground (arith, h)

-- The next caller gets its slot and its VNI, under another name than the one asked for.
one_more :
    (limit callers k : ℕ) (cs : List Caller)
    → k < limit
    → Reached limit callers (with_taken limit k) (stuck_before k (idle ∷ cs))
    → Reached limit callers (with_taken limit (suc k)) (stuck_before (suc k) cs)
unfolding stuck_before
one_more limit callers k cs h reached =
    subst (Reached limit callers (with_taken limit (suc k))) (stuck_snoc k cs) (
      then_step
        (then_step (then_step reached (stuck_step k (here ask)))
          (stuck_step k (here (enter (acquire_below limit k h)))))
        (stuck_step k (here rename)))

fill :
    (k m limit callers : ℕ)
    → k + m ≡ limit
    → k + m ≡ callers
    → Reached limit callers (with_taken limit k) (stuck_before k (all_idle m))
unfolding stuck_before all_idle new_rate_limiter
fill zero m limit callers e f =
    let same : callers ≡ m = omega (arith, f) in
    subst (λ n. Reached limit callers (with_taken limit 0) (all_idle n)) same start
fill (suc k) m limit callers e f =
    one_more limit callers k (all_idle m) (omega (arith, e))
      (fill k (suc m) limit callers (omega (arith, e)) (omega (arith, f)))

stuck_before-All : (k : ℕ) → All IsRenaming (stuck_before k [])
unfolding stuck_before
stuck_before-All zero = tt
stuck_before-All (suc k) = (tt, stuck_before-All k)

-- For every limit there is a state, reached with as many callers, in which each caller is in
-- CreateVNI with a slot and waits for a second one, and none can be acquired.
pub creators_stuck :
    (limit : ℕ)
    → (r : RateLimiter) × (cs : List Caller) × (Reached limit limit r cs)
      × (All IsRenaming cs)
      × (acquire r ≡ none)
unfolding all_idle acquire
creators_stuck limit = (
  with_taken limit limit,
  stuck_before limit [],
  fill limit 0 limit limit (omega arith) (omega arith),
  stuck_before-All limit,
  ground arith,
)
