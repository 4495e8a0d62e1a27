-- ===== src/Gateway/Nat/Tests.antt =====
-- The configuration and its verdicts at a concrete specification, with sorting by insertion.
use roks_vpc_cni.Base.{
  ◌≡◌, refl, inl, inr, ◌⊎◌, ◌||◌, Bool, true, false, List, [], ◌∷◌, arith, All, if◌then◌else◌,
  Bool-cases,
}
use roks_vpc_cni.Text.{Str, codes, str_eq, split2}
use roks_vpc_cni.Text.Integers.{ℤ, pos, negsuc}
use roks_vpc_cni.Gateway.Nat.{
  SnatRule, NoNatRule, GatewayNat, postrouting_rules, default_address, first_ip_from_cidr,
}
use roks_vpc_cni.Gateway.Nat.Verdicts.{lt_int, In, IsSorted, Sorts, accepted, verdict, Decides}
use roks_vpc_cni.Gateway.Nat.Postrouting.{exempt_accepted, translated_by_least}

not_lt_trans : (a b c : ℤ) → lt_int b a ≡ false → lt_int c b ≡ false → lt_int c a ≡ false
not_lt_trans (pos a) (pos b) (pos c) h k = ground arith
not_lt_trans (pos a) (pos b) (negsuc c) h k = cc
not_lt_trans (pos a) (negsuc b) (pos c) h k = cc
not_lt_trans (pos a) (negsuc b) (negsuc c) h k = cc
not_lt_trans (negsuc a) (pos b) (pos c) h k = refl
not_lt_trans (negsuc a) (pos b) (negsuc c) h k = cc
not_lt_trans (negsuc a) (negsuc b) (pos c) h k = refl
not_lt_trans (negsuc a) (negsuc b) (negsuc c) h k = ground arith

not_lt_flip : (a b : ℤ) → lt_int a b ≡ true → lt_int b a ≡ false
not_lt_flip (pos a) (pos b) h = ground arith
not_lt_flip (pos a) (negsuc b) h = cc
not_lt_flip (negsuc a) (pos b) h = refl
not_lt_flip (negsuc a) (negsuc b) h = ground arith

module _ {A : Type 0} (key : A → ℤ) where
  abbrev put : A → List A → List A
  put x [] = x ∷ []
  put x (y ∷ ys) = let rest = put x ys in if lt_int (key y) (key x) then y ∷ rest else x ∷ y ∷ ys

  put-In : (x z : A) (ys : List A) → (x ≡ z) ⊎ In z ys → In z (put x ys)
  put-In x z [] h = h
  put-In x z (y ∷ ys) h = elim (Bool-cases (lt_int (key y) (key x))) [
    | inl e ↦ rw e (elim h [
      | inl p ↦ inr (put-In x z ys (inl p))
      | inr (inl p) ↦ inl p
      | inr (inr i) ↦ inr (put-In x z ys (inr i))
    ])
    | inr e ↦ rw e h
  ]

  In-put : (x z : A) (ys : List A) → In z (put x ys) → (x ≡ z) ⊎ In z ys
  In-put x z [] = λ h. h
  In-put x z (y ∷ ys) = elim (Bool-cases (lt_int (key y) (key x))) [
    | inl e ↦ rw e (λ h. elim h [
      | inl p ↦ inr (inl p)
      | inr i ↦ elim (In-put x z ys i) [ inl p ↦ inl p | inr j ↦ inr (inr j) ]
    ])
    | inr e ↦ rw e (λ h. h)
  ]

  abbrev Above : ℤ → List A → Type 0
  Above k = All (λ y. lt_int (key y) k ≡ false)

  Above-put :
      (k : ℤ) (x : A) (ys : List A) → lt_int (key x) k ≡ false → Above k ys → Above k (put x ys)
  Above-put k x [] e h = (e, tt)
  Above-put k x (y ∷ ys) e h = elim (Bool-cases (lt_int (key y) (key x))) [
    | inl l ↦ rw l (h.0, Above-put k x ys e h.1)
    | inr l ↦ rw l (e, h)
  ]

  Above-trans : (a b : ℤ) (ys : List A) → lt_int b a ≡ false → Above b ys → Above a ys
  Above-trans a b [] e h = tt
  Above-trans a b (y ∷ ys) e h = (not_lt_trans a b (key y) e h.0, Above-trans a b ys e h.1)

  put-IsSorted : (x : A) (ys : List A) → IsSorted key ys → IsSorted key (put x ys)
  put-IsSorted x [] h = (tt, tt)
  put-IsSorted x (y ∷ ys) h = elim (Bool-cases (lt_int (key y) (key x))) [
    | inl e ↦
        rw e (Above-put (key y) x ys (not_lt_flip (key y) (key x) e) h.0, put-IsSorted x ys h.1)
    | inr e ↦ rw e ((e, Above-trans (key x) (key y) ys e h.0), h)
  ]

abbrev insertion_sort : (A : Type 0) → (A → ℤ) → List A → List A
insertion_sort A key [] = []
insertion_sort A key (x ∷ xs) = put key x (insertion_sort A key xs)

keeps : (A : Type 0) (key : A → ℤ) (x : A) (xs : List A) → In x xs → In x (insertion_sort A key xs)
keeps A key x [] i = i
keeps A key x (y ∷ xs) i =
    put-In key y x (insertion_sort A key xs)
      (elim i [ inl e ↦ inl e | inr j ↦ inr (keeps A key x xs j) ])

adds_none :
    (A : Type 0) (key : A → ℤ) (x : A) (xs : List A) → In x (insertion_sort A key xs) → In x xs
adds_none A key x [] i = i
adds_none A key x (y ∷ xs) i = elim (In-put key y x (insertion_sort A key xs) i) [
  | inl e ↦ inl e
  | inr j ↦ inr (adds_none A key x xs j)
]

sorted : (A : Type 0) (key : A → ℤ) (xs : List A) → IsSorted key (insertion_sort A key xs)
sorted A key [] = tt
sorted A key (x ∷ xs) = put-IsSorted key x (insertion_sort A key xs) (sorted A key xs)

insertion_sort-Sorts : Sorts insertion_sort
insertion_sort-Sorts = record { keeps = keeps; adds_none = adds_none; sorted = sorted }

abbrev source : Str
source = codes "10.0.0.5"

abbrev destination : Str
destination = codes "10.1.0.7"

abbrev covers : Str → Str → Bool
covers a b = str_eq a b || str_eq a (codes "0.0.0.0/0")

abbrev general : SnatRule
general = record { source = codes "0.0.0.0/0"; translated_address = []; priority = pos 20 }

abbrev special : SnatRule
special = record { source = source; translated_address = codes "150.1.1.9"; priority = pos 10 }

abbrev exemption : NoNatRule
exemption = record { source = source; destination = codes "0.0.0.0/0"; priority = pos 5 }

abbrev spec_with : List NoNatRule → GatewayNat
spec_with rs = record { snat = general ∷ special ∷ []; dnat = []; no_nat = rs }

default_of_par : default_address (codes "10.9.9.9") (codes "150.1.1.0/28" ∷ []) ≡ codes "150.1.1.0"
unfolding default_address first_ip_from_cidr str_eq split2
default_of_par = refl

exempt_accepted_example :
    verdict covers source destination
      (postrouting_rules insertion_sort (spec_with (exemption ∷ [])) (codes "150.1.1.0"))
    ≡ accepted
unfolding str_eq
exempt_accepted_example =
    exempt_accepted insertion_sort insertion_sort-Sorts covers source destination
      (spec_with (exemption ∷ [])) (codes "150.1.1.0") exemption (inl refl) refl

translated_by_least_example :
    (s : SnatRule) × Decides covers source destination
      (codes "150.1.1.0")
      (general ∷ special ∷ [])
      (verdict covers source destination
        (postrouting_rules insertion_sort (spec_with []) (codes "150.1.1.0")))
      s
unfolding str_eq
translated_by_least_example =
    translated_by_least insertion_sort insertion_sort-Sorts covers source destination (spec_with [])
      (codes "150.1.1.0") special (λ q i e. elim i [ ]) (inr (inl refl)) refl
