-- ===== src/Network/Names/Tests.antt =====
-- Names at concrete inputs.
use roks_vpc_cni.Base.{ℕ, zero, suc, ◌≤◌, ◌≡◌, ◌≢◌, refl, List, [], ◌∷◌, ◌++◌, length, take, All}
use roks_vpc_cni.Text.{Str, codes, replace_byte, trim_right_byte}
use roks_vpc_cni.Network.Names.{hex, truncate_vpc_name, sanitize_name}
use roks_vpc_cni.Network.Names.Bounds.{truncate_vpc_name_limits, sanitize_name_valid}

abbrev repeat : ℕ → ℕ → List ℕ
repeat zero b = []
repeat (suc n) b = b ∷ repeat n b

-- A digest of 32 bytes.
abbrev sample_digest : Str → List ℕ
sample_digest s = repeat 32 0x5a

truncated : truncate_vpc_name sample_digest (repeat 70 b'x') ≡ repeat 55 b'x' ++ codes "-5a5a5a5"
unfolding truncate_vpc_name hex
truncated = refl

truncate_vpc_name_limits_example :
    let name = repeat 70 b'x' in
    (length name ≤ 63 → truncate_vpc_name sample_digest name ≡ name)
    × (64 ≤ length name
        → (length (truncate_vpc_name sample_digest name) ≡ 63)
          × (take 55 (truncate_vpc_name sample_digest name) ≡ take 55 name))
truncate_vpc_name_limits_example = truncate_vpc_name_limits sample_digest (repeat 70 b'x') refl

sanitized : sanitize_name (codes "host1.cluster.") ≡ codes "host1-cluster"
unfolding sanitize_name replace_byte trim_right_byte
sanitized = refl

sanitize_name_valid_example :
    (length (sanitize_name (codes "host1.cluster.")) ≤ 63)
    × All (λ c. c ≢ b'.') (sanitize_name (codes "host1.cluster."))
    × ((t : Str) → sanitize_name (codes "host1.cluster.") ≢ t ++ b'-' ∷ [])
sanitize_name_valid_example = sanitize_name_valid (codes "host1.cluster.")
