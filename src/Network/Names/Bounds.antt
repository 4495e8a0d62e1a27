-- ===== src/Network/Names/Bounds.antt =====
-- Lengths and characters of the names.
use roks_vpc_cni.Base.{
  ℕ, zero, suc, ◌*◌, ◌≤◌, ◌≡◌, ◌≢◌, inl, inr, refl, ap, List, [], ◌∷◌, ◌++◌, arith, length,
  length-append, length-take, take, leb, All, if◌then◌else◌, Bool-cases, ltb,
}
use roks_vpc_cni.Text.{Str, replace_byte, trim_right_byte}
use roks_vpc_cni.Network.Names.{hex, truncate_vpc_name, sanitize_name}

length-hex : (bs : List ℕ) → length (hex bs) ≡ 2 * length bs
unfolding hex
length-hex [] = omega arith
length-hex (b ∷ bs) = omega (arith, length-hex bs)

take_front : (n : ℕ) (xs ys : Str) → n ≤ length xs → take n (take n xs ++ ys) ≡ take n xs
take_front zero xs ys h = refl
take_front (suc n) [] ys h = absurd (omega arith)
take_front (suc n) (x ∷ xs) ys h = ap (λ t. x ∷ t) (take_front n xs ys (omega arith))

module _ (sha256 : Str → List ℕ) where
  length-truncated :
      (name : Str)
      → length (sha256 name) ≡ 32
      → 64 ≤ length name
      → length (take 55 name ++ (b'-' ∷ take 7 (hex (sha256 name)))) ≡ 63
  length-truncated name digest long =
      let suffix = take 7 (hex (sha256 name)) in
      omega (
        arith,
        length-append (take 55 name) (b'-' ∷ suffix),
        length-take 55 name (omega arith),
        length-take 7 (hex (sha256 name)) (omega (arith, length-hex (sha256 name))),
      )

  -- A name of at most 63 bytes is kept. A longer one becomes a name of exactly 63 bytes: its first
  -- 55, a dash, and seven hexadecimal digits of its digest. The digest has 32 bytes.
  pub truncate_vpc_name_limits :
      (name : Str)
      → length (sha256 name) ≡ 32
      → (length name ≤ 63 → truncate_vpc_name sha256 name ≡ name)
        × (64 ≤ length name
            → (length (truncate_vpc_name sha256 name) ≡ 63)
              × (take 55 (truncate_vpc_name sha256 name) ≡ take 55 name))
  unfolding truncate_vpc_name
  truncate_vpc_name_limits name digest = elim (Bool-cases (leb (length name) 63)) [
    | inl e ↦ rw e (λ h. refl, λ h. absurd (ground arith))
    | inr e ↦ rw e (
      λ h. absurd (ground arith),
      λ h. (length-truncated name digest h, take_front 55 name _ (omega arith)),
    )
  ]

abbrev HasNo : ℕ → Str → Type 0
HasNo b = All (λ c. c ≢ b)

length-replace_byte : (a b : ℕ) (s : Str) → length (replace_byte a b s) ≡ length s
unfolding replace_byte
length-replace_byte a b [] = refl
length-replace_byte a b (c ∷ s) = omega (arith, length-replace_byte a b s)

replace_byte-HasNo : (s : Str) → HasNo b'.' (replace_byte b'.' b'-' s)
unfolding replace_byte
replace_byte-HasNo [] = tt
replace_byte-HasNo (c ∷ s) = (ground arith, replace_byte-HasNo s)

take-HasNo : (b n : ℕ) (s : Str) → HasNo b s → HasNo b (take n s)
take-HasNo b zero s h = tt
take-HasNo b (suc n) [] h = tt
take-HasNo b (suc n) (c ∷ s) h = (h.0, take-HasNo b n s h.1)

trim_right_byte-HasNo : (b d : ℕ) (s : Str) → HasNo b s → HasNo b (trim_right_byte d s)
unfolding trim_right_byte
trim_right_byte-HasNo b d [] h = tt
trim_right_byte-HasNo b d (c ∷ s) h = ground (arith, trim_right_byte-HasNo b d s h.1)

length-trim_right_byte : (d : ℕ) (s : Str) → length (trim_right_byte d s) ≤ length s
unfolding trim_right_byte
length-trim_right_byte d [] = omega arith
length-trim_right_byte d (c ∷ s) = ground (arith, length-trim_right_byte d s)

trim_right_byte_end : (d : ℕ) (s t : Str) → trim_right_byte d s ≢ t ++ d ∷ []
unfolding trim_right_byte
trim_right_byte_end d [] [] e = cc
trim_right_byte_end d [] (x ∷ t) e = cc
trim_right_byte_end d (c ∷ s) [] e = ground arith
trim_right_byte_end d (c ∷ s) (x ∷ t) e = ground (arith, trim_right_byte_end d s t)

-- A sanitized name has at most 63 bytes, no dot, and no dash at its end.
pub sanitize_name_valid :
    (s : Str)
    → (length (sanitize_name s) ≤ 63)
      × All (λ c. c ≢ b'.') (sanitize_name s)
      × ((t : Str) → sanitize_name s ≢ t ++ b'-' ∷ [])
unfolding sanitize_name
sanitize_name_valid s =
    let dashed = replace_byte b'.' b'-' s in
    let cut = if ltb 63 (length dashed) then take 63 dashed else dashed in
    (
      omega (arith, length-trim_right_byte b'-' cut, cut_short dashed),
      trim_right_byte-HasNo b'.' b'-' cut (cut_clean dashed (replace_byte-HasNo s)),
      λ t. trim_right_byte_end b'-' cut t,
    )
  where
    cut_short : (d : Str) → length (if ltb 63 (length d) then take 63 d else d) ≤ 63
    cut_short d = elim (Bool-cases (ltb 63 (length d))) [
      | inl e ↦ rw e (omega (arith, length-take 63 d (ground arith)))
      | inr e ↦ rw e (ground arith)
    ]

    cut_clean : (d : Str) → HasNo b'.' d → HasNo b'.' (if ltb 63 (length d) then take 63 d else d)
    cut_clean d h = elim (Bool-cases (ltb 63 (length d))) [
      | inl e ↦ rw e (take-HasNo b'.' 63 d h)
      | inr e ↦ rw e h
    ]
