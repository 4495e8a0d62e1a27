-- ===== src/Controllers/Logged.antt =====
-- Actions that log what they call: the calls so far, the latest first, are the state.
use roks_vpc_cni.Base.{Bool, true, false, Option, none, some, List, ◌∷◌}
use roks_vpc_cni.Text.{Str}

abbrev pub Logged : Type 0 → Type 0 → Type 0
Logged C A = List C → A × List C

module _ {C : Type 0} where
  abbrev pub pure : {A : Type 0} → A → Logged C A
  pure a t = (a, t)

  infixl 5 ◌>>=◌ ◌>>◌
  abbrev pub ◌>>=◌ : {A B : Type 0} → Logged C A → (A → Logged C B) → Logged C B
  ◌>>=◌ m f t = let (a, t') = m t in f a t'

  abbrev pub ◌>>◌ : {A B : Type 0} → Logged C A → Logged C B → Logged C B
  m >> k = m >>= λ _. k

  -- What an interface answers without changing anything.
  abbrev pub read : {A : Type 0} → (List C → A) → Logged C A
  read f t = (f t, t)

  -- A call with its answer, logged.
  abbrev pub call : {A : Type 0} → (List C → A) → (A → C) → Logged C A
  call answer entry t = let a = answer t in (a, entry a ∷ t)

  abbrev pub record_call : C → Logged C (Unit {0})
  record_call c t = (tt, c ∷ t)

  -- if c { m } else { k }
  abbrev pub branch : {A : Type 0} → Bool → Logged C A → Logged C A → Logged C A
  branch true m k t = m t
  branch false m k t = k t

  -- What both branches establish.
  pub branch_rule :
      {A : Type 0} (P : A × List C → Type 0) (b : Bool) (m k : Logged C A) (t : List C)
      → P (m t)
      → P (k t)
      → P (branch b m k t)
  branch_rule P true m k t hm hk = hm
  branch_rule P false m k t hm hk = hk

  -- if err != nil { m } else { k }
  abbrev pub on_error : {A : Type 0} → Option Str → (Str → Logged C A) → Logged C A → Logged C A
  on_error (some e) m k t = m e t
  on_error none m k t = k t
