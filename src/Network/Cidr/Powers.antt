-- ===== src/Network/Cidr/Powers.antt =====
-- Powers of two, and blocks of numbers with one quotient.
use native.Mathlib.Nat.{
  pow-suc, pow-zero, div-div-eq-div-mul, add-mul-div_right, mul-div_cancel, div-eq_of_lt, zero-add,
}
use roks_vpc_cni.Base.{ℕ, zero, suc, ◌+◌, ◌-◌, ◌*◌, ◌/◌, ◌^◌, ◌≤◌, ◌<◌, ◌≡◌, ap, ◌∙◌, arith}

pub pow_pos : (n : ℕ) → 0 < 2 ^ n
pow_pos zero = omega arith
pow_pos (suc n) = rw pow-suc (omega (arith, pow_pos n))

pow-add : (m n : ℕ) → 2 ^ (n + m) ≡ 2 ^ n * 2 ^ m
pow-add m zero = rw (zero-add, pow-zero) (omega arith)
pow-add m (suc n) =
    let e : suc n + m ≡ suc (n + m) = omega arith in
    rw (e, pow-suc, pow-suc, pow-add m n) (omega arith)

pub pow_split : (m n : ℕ) → m ≤ n → 2 ^ n ≡ 2 ^ m * 2 ^ (n - m)
pow_split m n h = let e : n ≡ m + (n - m) = omega arith in ap (λ k. 2 ^ k) e ∙ pow-add (n - m) m

pub two-le-pow : (n : ℕ) → 0 < n → 2 ≤ 2 ^ n
two-le-pow zero h = elim h [ ]
two-le-pow (suc n) h = rw pow-suc (omega (arith, pow_pos n))

-- A block of size `d` lies within one of size `d * k`.
pub coarser : (d k a b : ℕ) → a / d ≡ b / d → a / (d * k) ≡ b / (d * k)
coarser d k a b h = rw (← div-div-eq-div-mul a d k, ← div-div-eq-div-mul b d k, h)

-- A block of size `d * k` with `2 ≤ k` is no part of a block of size `d`.
pub finer_splits :
    (d k i j : ℕ) → 0 < d → 2 ≤ k → ((a : ℕ) → a / (d * k) ≡ i / (d * k) → a / d ≡ j / d) → ⊥
finer_splits d k i j hd hk all =
    let q = i / (d * k) in
    let lt : d < d * k = grind arith in
    let next : (d + q * (d * k)) / (d * k) ≡ q =
      rw (add-mul-div_right d q (lt_pos hd hk), div-eq_of_lt lt) (omega arith) in
    let above : (d + q * (d * k)) / d ≡ 1 + q * k =
      ap (λ n. n / d) (regroup d k q) ∙ mul-div_cancel (1 + q * k) hd in
    let below : (q * (d * k)) / d ≡ q * k =
      ap (λ n. n / d) (regroup_zero d k q) ∙ mul-div_cancel (q * k) hd in
    let first : (q * (d * k)) / (d * k) ≡ q = mul-div_cancel q (lt_pos hd hk) in
    omega (arith, all (d + q * (d * k)) next, all (q * (d * k)) first, above, below)
  where
    lt_pos : 0 < d → 2 ≤ k → 0 < d * k
    lt_pos p h = grind arith

    regroup : (d k q : ℕ) → d + q * (d * k) ≡ (1 + q * k) * d
    regroup d k q = omega arith

    regroup_zero : (d k q : ℕ) → q * (d * k) ≡ (q * k) * d
    regroup_zero d k q = omega arith
