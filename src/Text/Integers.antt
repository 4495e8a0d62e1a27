-- ===== src/Text/Integers.antt =====
-- Go's int64 as it is read from and printed to decimal texts.
use roks_vpc_cni.Base.{
  ℕ, zero, suc, ◌+◌, ◌-◌, ◌*◌, ◌&&◌, not, Option, none, some, [], ◌∷◌, leb, ltb, ◌==◌,
  if◌then◌else◌,
}
use roks_vpc_cni.Text.Defs.{Str, decimal}

-- `negsuc n` is -(n + 1).
pub data ℤ : Type 0 where
  pos : ℕ → ℤ
  negsuc : ℕ → ℤ

-- strconv.ParseUint(s, 10, 64) behind the digits that make `n`: `none` for a syntax error, the
-- largest value where it overflows.
unfoldable pub parse_uint : ℕ → Str → Option ℕ
parse_uint n [] = some n
parse_uint n (c ∷ s) =
    let later = parse_uint (n * 10 + (c - b'0')) s in
    if not (leb b'0' c && leb c b'9')
    then none
    else if ltb 18446744073709551615 (n * 10 + (c - b'0'))
    then some 18446744073709551615
    else later

unfoldable pub parse_digits : Str → Option ℕ
parse_digits [] = none
parse_digits (c ∷ s) = parse_uint 0 (c ∷ s)

unfoldable pub negated : ℕ → ℤ
negated zero = pos zero
negated (suc n) = negsuc n

-- strconv.ParseInt(s, 10, 64), its error dropped: 0 for a syntax error, the nearest value out of
-- range.
unfoldable pub parse_int : Str → ℤ
parse_int [] = pos 0
parse_int (c ∷ s) =
    let digits = if c == b'-' then s else if c == b'+' then s else c ∷ s in
    elim (parse_digits digits) [
      | none ↦ pos 0
      | some n ↦
          if c == b'-'
          then negated (if leb n 9223372036854775808 then n else 9223372036854775808)
          else pos (if leb n 9223372036854775807 then n else 9223372036854775807)
    ]

-- fmt.Sprintf("%d", n)
unfoldable pub decimal_int : ℤ → Str
decimal_int (pos n) = decimal n
decimal_int (negsuc n) = b'-' ∷ decimal (suc n)
