-- ===== src/Vpc/Limiter/Slots.antt =====
-- How many slots the callers have, and when one can go on.
use roks_vpc_cni.Base.{
  ℕ, zero, suc, ◌+◌, ◌≤◌, ◌≡◌, refl, ◌∙◌, ◌⊎◌, inl, inr, Bool-cases, true, some, List, [], ◌∷◌,
  arith, ltb, Any,
}
use roks_vpc_cni.Vpc.Limiter.{
  RateLimiter, new_rate_limiter, acquire, returned, release, Caller, idle, waiting, calling,
  renaming, nested, CallerStep, ask, enter, cancel, leave, rename, enter_nested, cancel_nested,
  leave_nested, SystemStep, here, there, all_idle, Reached, start, then_step,
}

abbrev pub slots_of : Caller → ℕ
slots_of idle = 0
slots_of waiting = 0
slots_of calling = 1
slots_of renaming = 1
slots_of nested = 2

-- The slots of all callers.
unfoldable pub slots : List Caller → ℕ
slots [] = 0
slots (c ∷ cs) = slots_of c + slots cs

abbrev Moves : ℕ → ℕ → RateLimiter → RateLimiter → Type 0
Moves n n' r r' =
    (r'.taken + n ≡ r.taken + n')
    × (r'.capacity ≡ r.capacity)
    × (r.taken ≤ r.capacity → r'.taken ≤ r'.capacity)

acquire-Moves : (n : ℕ) (r r' : RateLimiter) → acquire r ≡ some r' → Moves n (suc n) r r'
unfolding acquire
acquire-Moves n r r' e = ground (arith, e)

returned-Moves :
    (n : ℕ) (c k : ℕ) (r' : RateLimiter)
    → returned c k ≡ some r'
    → Moves (suc n) n (record { capacity = c; taken = k }) r'
returned-Moves n c zero r' e = absurd (ground (arith, e))
returned-Moves n c (suc k) r' e = ground (arith, e)

release-Moves : (n : ℕ) (r r' : RateLimiter) → release r ≡ some r' → Moves (suc n) n r r'
unfolding release
release-Moves n r r' e = returned-Moves n r.capacity r.taken r' e

caller-Moves :
    {r r' : RateLimiter} {c c' : Caller}
    → CallerStep r c r' c'
    → Moves (slots_of c) (slots_of c') r r'
caller-Moves ask = (refl, refl, λ h. h)
caller-Moves {r} {r'} (enter e) = acquire-Moves 0 r r' e
caller-Moves cancel = (refl, refl, λ h. h)
caller-Moves {r} {r'} (leave e) = release-Moves 0 r r' e
caller-Moves rename = (refl, refl, λ h. h)
caller-Moves {r} {r'} (enter_nested e) = acquire-Moves 1 r r' e
caller-Moves cancel_nested = (refl, refl, λ h. h)
caller-Moves {r} {r'} (leave_nested e) = release-Moves 1 r r' e

system-Moves :
    {r r' : RateLimiter} {cs cs' : List Caller}
    → SystemStep r cs r' cs'
    → Moves (slots cs) (slots cs') r r'
unfolding slots
system-Moves (here s) =
    let (moved, kept, fits) = caller-Moves s in (omega (arith, moved), kept, fits)
system-Moves (there s) =
    let (moved, kept, fits) = system-Moves s in (omega (arith, moved), kept, fits)

slots-all_idle : (n : ℕ) → slots (all_idle n) ≡ 0
unfolding slots all_idle
slots-all_idle zero = refl
slots-all_idle (suc n) = omega (arith, slots-all_idle n)

-- In every state that is reached the semaphore holds as many values as the callers have slots, and
-- those are at most the limit.
pub Reached-slots :
    {limit callers : ℕ} {r : RateLimiter} {cs : List Caller}
    → Reached limit callers r cs
    → (r.taken ≡ slots cs) × (r.capacity ≡ limit) × (slots cs ≤ limit)
unfolding new_rate_limiter
Reached-slots {limit} {callers} start =
    (omega (arith, slots-all_idle callers), refl, omega (arith, slots-all_idle callers))
Reached-slots (then_step h s) =
    let (same, cap, bound) = Reached-slots h in
    let (moved, kept, fits) = system-Moves s in
    (
      omega (arith, same, moved),
      kept ∙ cap,
      omega (arith, same, moved, kept, cap, bound, fits (omega (arith, same, cap, bound))),
    )

-- A caller with a slot that is not waiting for a second one.
abbrev pub CanReturn : Caller → Type 0
CanReturn idle = ⊥
CanReturn waiting = ⊥
CanReturn calling = Unit
CanReturn renaming = ⊥
CanReturn nested = Unit

abbrev pub IsRenaming : Caller → Type 0
IsRenaming idle = ⊥
IsRenaming waiting = ⊥
IsRenaming calling = ⊥
IsRenaming renaming = Unit
IsRenaming nested = ⊥

-- Some slot is taken, by a caller that can return it or by one that is renaming.
later :
    (c : Caller) (cs : List Caller)
    → Any CanReturn cs ⊎ Any IsRenaming cs
    → Any CanReturn (c ∷ cs) ⊎ Any IsRenaming (c ∷ cs)
later c cs (inl h) = inl (inr h)
later c cs (inr h) = inr (inr h)

slot_holder : (cs : List Caller) → 1 ≤ slots cs → Any CanReturn cs ⊎ Any IsRenaming cs
unfolding slots
slot_holder [] h = absurd (omega (arith, h))
slot_holder (idle ∷ cs) h = later idle cs (slot_holder cs (omega (arith, h)))
slot_holder (waiting ∷ cs) h = later waiting cs (slot_holder cs (omega (arith, h)))
slot_holder (calling ∷ cs) h = inl (inl tt)
slot_holder (renaming ∷ cs) h = inr (inl tt)
slot_holder (nested ∷ cs) h = inl (inl tt)

acquire_free :
    (r : RateLimiter) → ltb r.taken r.capacity ≡ true → (r' : RateLimiter) × (acquire r ≡ some r')
unfolding acquire
acquire_free r h = (record r { taken = suc r.taken }, rw h refl)

returned-some : (c k : ℕ) → 1 ≤ k → (r' : RateLimiter) × (returned c k ≡ some r')
returned-some c zero h = absurd (omega (arith, h))
returned-some c (suc k) h = (_, refl)

-- In every state that is reached with a limit above zero, a slot can be acquired, or some caller has
-- one that it can return now, or some caller is in CreateVNI and waits for its second slot.
pub Reached-free :
    {limit callers : ℕ} {r : RateLimiter} {cs : List Caller}
    → Reached limit callers r cs
    → 1 ≤ limit
    → ((r' : RateLimiter) × (acquire r ≡ some r'))
      ⊎ ((Any CanReturn cs × ((r' : RateLimiter) × (release r ≡ some r'))) ⊎ Any IsRenaming cs)
unfolding release
Reached-free {limit} {r = r} {cs = cs} h some_limit =
    let (same, cap, bound) = Reached-slots h in
    elim (Bool-cases (ltb r.taken r.capacity)) [
      | inl e ↦ inl (acquire_free r e)
      | inr e ↦
          let full : 1 ≤ r.taken = ground (arith, e, cap, some_limit) in
          elim (slot_holder cs (omega (arith, full, same))) [
            | inl holds ↦ inr (inl (holds, returned-some r.capacity r.taken full))
            | inr renames ↦ inr (inr renames)
          ]
    ]
