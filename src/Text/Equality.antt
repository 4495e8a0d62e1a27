-- ===== src/Text/Equality.antt =====
-- Equality of byte strings is decided by `str_eq`.
use roks_vpc_cni.Base.{◌≡◌, ◌≢◌, refl, ◌↔◌, ◌⊎◌, inl, inr, true, false, [], ◌∷◌, arith, Bool-cases}
use roks_vpc_cni.Text.Defs.{Str, str_eq}

pub str_eq_sound : (a b : Str) → str_eq a b ≡ true → a ≡ b
unfolding str_eq
str_eq_sound [] [] h = refl
str_eq_sound [] (d ∷ t) h = cc
str_eq_sound (c ∷ s) [] h = cc
str_eq_sound (c ∷ s) (d ∷ t) h = ground (arith, str_eq_sound s t)

pub str_eq_refl : (a : Str) → str_eq a a ≡ true
unfolding str_eq
str_eq_refl [] = refl
str_eq_refl (c ∷ s) = ground (arith, str_eq_refl s)

pub str_eq_iff : (a b : Str) → (str_eq a b ≡ true) ↔ (a ≡ b)
str_eq_iff a b = (str_eq_sound a b, λ e. rw e (str_eq_refl b))

-- Two strings are equal or not.
pub str_eq-cases : (a b : Str) → (a ≡ b) ⊎ ((a ≢ b) × (str_eq a b ≡ false))
str_eq-cases a b = elim (Bool-cases (str_eq a b)) [
  | inl e ↦ inl (str_eq_sound a b e)
  | inr e ↦ inr (λ p. cc (e, (str_eq_iff a b).1 p), e)
]

pub str_eq_nil : (a : Str) → a ≡ [] → str_eq a [] ≡ true
str_eq_nil a e = rw e (str_eq_refl [])

pub str_eq_ne : (a b : Str) → a ≢ b → str_eq a b ≡ false
str_eq_ne a b ne = elim (Bool-cases (str_eq a b)) [
  | inl e ↦ absurd (ne (str_eq_sound a b e))
  | inr e ↦ e
]
