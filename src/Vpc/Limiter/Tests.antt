-- ===== src/Vpc/Limiter/Tests.antt =====
-- Two calls under a limit of one.
use roks_vpc_cni.Base.{◌≡◌, ◌≤◌, ◌⊎◌, refl, arith, none, some, List, [], ◌∷◌, Any, All}
use roks_vpc_cni.Vpc.Limiter.{
  RateLimiter, new_rate_limiter, acquire, release, Caller, waiting, calling, ask, enter, here,
  there, all_idle, Reached, start, then_step,
}
use roks_vpc_cni.Vpc.Limiter.Slots.{slots, CanReturn, IsRenaming, Reached-slots, Reached-free}
use roks_vpc_cni.Vpc.Limiter.Stuck.{creators_stuck}

abbrev busy : RateLimiter
busy = record { capacity = 1; taken = 1 }

-- One caller is behind Acquire, and the other one in front of it.
busy_reached : Reached 1 2 busy (calling ∷ waiting ∷ [])
unfolding new_rate_limiter all_idle acquire
busy_reached =
    then_step (then_step (then_step start (here ask)) (there (here ask))) (here (enter refl))

Reached-slots_example :
    (busy.taken ≡ slots (calling ∷ waiting ∷ []))
    × (busy.capacity ≡ 1)
    × (slots (calling ∷ waiting ∷ []) ≤ 1)
Reached-slots_example = Reached-slots busy_reached

Reached-free_example :
    ((r : RateLimiter) × (acquire busy ≡ some r))
    ⊎ ((Any CanReturn (calling ∷ waiting ∷ []) × ((r : RateLimiter) × (release busy ≡ some r)))
        ⊎ Any IsRenaming (calling ∷ waiting ∷ []))
Reached-free_example = Reached-free busy_reached (omega arith)

creators_stuck_example :
    (r : RateLimiter) × (cs : List Caller) × (Reached 10 10 r cs)
    × (All IsRenaming cs)
    × (acquire r ≡ none)
creators_stuck_example = creators_stuck 10
