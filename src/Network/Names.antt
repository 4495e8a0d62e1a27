-- ===== src/Network/Names.antt =====
-- TruncateVPCName and sanitizeName of pkg/controller/network/helpers.go: names that fit the limits
-- of the VPC and Kubernetes interfaces. The digest of SHA-256 is a parameter, a function on texts.
pub mod Bounds
mod Tests
use roks_vpc_cni.Base.{
  ℕ, ◌+◌, ◌-◌, ◌/◌, ◌%◌, List, [], ◌∷◌, ◌++◌, length, take, ltb, leb, if◌then◌else◌,
}
use roks_vpc_cni.Text.{Str, replace_byte, trim_right_byte}

-- hex.EncodeToString
abbrev pub hex_digit : ℕ → ℕ
hex_digit n = if ltb n 10 then b'0' + n else b'a' + (n - 10)

unfoldable pub hex : List ℕ → Str
hex [] = []
hex (b ∷ bs) = hex_digit (b / 16) ∷ hex_digit (b % 16) ∷ hex bs

module _ (sha256 : Str → List ℕ) where
  unfoldable pub truncate_vpc_name : Str → Str
  truncate_vpc_name name =
      if leb (length name) 63 then name else take 55 name ++ (b'-' ∷ take 7 (hex (sha256 name)))

-- The conversion of a node name to a component of a resource name.
unfoldable pub sanitize_name : Str → Str
sanitize_name s =
    let dashed = replace_byte b'.' b'-' s in
    trim_right_byte b'-' (if ltb 63 (length dashed) then take 63 dashed else dashed)
