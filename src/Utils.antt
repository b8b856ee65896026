-- ===== src/Utils.antt =====
-- pkg/utils/utils.go: units, protocol names, sizes in MB and the truth value of a parameter.
pub mod Sizes
use reference_guides.Base.{
  ℕ, ◌*◌, ℤ, pos, add64, mul64, quot64, GoString, codes, ◌==◌, to_lower, Bool, ◌||◌, List, [], ◌∷◌,
  any, is_empty, fields, Result, ok, err, errorf,
}

abbrev pub unit_gb : ℕ
unit_gb = 1024 * 1024 * 1024

abbrev pub unit_mb : ℕ
unit_mb = 1024 * 1024

abbrev pub protocol_smb : GoString
protocol_smb = codes "smb"

abbrev pub protocol_iscsi : GoString
protocol_iscsi = codes "iscsi"

abbrev pub protocol_default : GoString
protocol_default = protocol_iscsi

-- SliceContains
unfoldable pub slice_contains : List GoString → GoString → Bool
slice_contains items s = any (λ item. s == item) items

-- MBToBytes
unfoldable pub mb_to_bytes : ℤ → ℤ
mb_to_bytes size = mul64 size unit_mb

-- BytesToMB
unfoldable pub bytes_to_mb : ℤ → ℤ
bytes_to_mb size = quot64 size unit_mb

-- BytesToMBCeil: (size + UNIT_MB - 1) / UNIT_MB, where each step may wrap.
unfoldable pub bytes_to_mb_ceil : ℤ → ℤ
bytes_to_mb_ceil size = quot64 (add64 (add64 size (pos unit_mb)) (ℤ.negsuc 0)) unit_mb

-- StringToBoolean
unfoldable pub string_to_boolean : GoString → Bool
string_to_boolean value =
    let value' = to_lower value in
    value' == codes "yes" || value' == codes "true" || value' == codes "1"

-- StringToSlice
abbrev pub string_to_slice : GoString → List GoString
string_to_slice value = fields value

-- net.IP: with the text of its four bytes where To4 is not nil.
pub data IpAddress : Type 0 where
  ipv4 : GoString → IpAddress
  ipv6 : IpAddress

-- The addresses that To4 knows.
abbrev pub ipv4_texts : List IpAddress → List GoString
ipv4_texts [] = []
ipv4_texts (ipv4 ip ∷ ips) = ip ∷ ipv4_texts ips
ipv4_texts (ipv6 ∷ ips) = ipv4_texts ips

-- LookupIPv4, from the answer of net.LookupIP.
unfoldable pub lookup_ipv4 : List IpAddress → Result (List GoString)
lookup_ipv4 ips = elim (ipv4_texts ips) [ [] ↦ err errorf | ip ∷ more ↦ ok (ip ∷ more) ]

-- AuthType
pub data AuthType : Type 0 where
  auth_type_read_write auth_type_read_only auth_type_no_access : AuthType
  other_auth_type : GoString → AuthType
