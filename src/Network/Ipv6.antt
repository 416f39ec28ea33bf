-- ===== src/Network/Ipv6.antt =====
-- The IPv6 tests of ext/curb_easy.c, on the sixteen bytes of an address.
pub mod Blocks
use curb.Base.{
  ℕ, zero, suc, bit_and, Bool, true, false, ◌&&◌, [], ◌∷◌, Bytes, ◌==◌, if◌then◌else◌, drop,
}
use curb.Network.Prefix.{byte, ipv6_prefix_matches}
use curb.Network.Ipv4.{ipv4_is_unsafe_destination}

-- The loop of curb_ipv6_is_all_zero, with `count` rounds left.
zero_bytes : (count i : ℕ) → Bytes → Bool
zero_bytes zero i ip = true
zero_bytes (suc count) i ip =
    let rest = zero_bytes count (suc i) ip in if byte ip i == 0 then rest else false

unfoldable pub ipv6_is_all_zero : Bytes → Bool
unfolding zero_bytes
ipv6_is_all_zero ip = zero_bytes 16 0 ip

abbrev pub mapped_prefix : Bytes
mapped_prefix = 0 ∷ 0 ∷ 0 ∷ 0 ∷ 0 ∷ 0 ∷ 0 ∷ 0 ∷ 0 ∷ 0 ∷ 0xff ∷ 0xff ∷ []

abbrev pub compatible_prefix : Bytes
compatible_prefix = 0 ∷ 0 ∷ 0 ∷ 0 ∷ 0 ∷ 0 ∷ 0 ∷ 0 ∷ 0 ∷ 0 ∷ 0 ∷ 0 ∷ []

abbrev pub nat64_prefix : Bytes
nat64_prefix = 0x00 ∷ 0x64 ∷ 0xff ∷ 0x9b ∷ 0 ∷ 0 ∷ 0 ∷ 0 ∷ 0 ∷ 0 ∷ 0 ∷ 0 ∷ []

abbrev pub nat64_local_prefix : Bytes
nat64_local_prefix = 0x00 ∷ 0x64 ∷ 0xff ∷ 0x9b ∷ 0x00 ∷ 0x01 ∷ []

abbrev pub documentation_prefix : Bytes
documentation_prefix = 0x20 ∷ 0x01 ∷ 0x0d ∷ 0xb8 ∷ []

abbrev pub benchmarking_prefix : Bytes
benchmarking_prefix = 0x20 ∷ 0x01 ∷ 0x00 ∷ 0x02 ∷ 0 ∷ 0 ∷ []

unfoldable pub ipv6_is_ipv4_mapped : Bytes → Bool
ipv6_is_ipv4_mapped ip = ipv6_prefix_matches ip mapped_prefix 96

unfoldable pub ipv6_is_ipv4_compatible : Bytes → Bool
ipv6_is_ipv4_compatible ip = ipv6_prefix_matches ip compatible_prefix 96

unfoldable pub ipv6_is_nat64_well_known : Bytes → Bool
ipv6_is_nat64_well_known ip = ipv6_prefix_matches ip nat64_prefix 96

unfoldable pub ipv6_is_nat64_local_use : Bytes → Bool
ipv6_is_nat64_local_use ip = ipv6_prefix_matches ip nat64_local_prefix 48

unfoldable pub ipv6_is_unsafe_destination : Bytes → Bool
ipv6_is_unsafe_destination ip =
    if ipv6_is_all_zero ip
    then true
    else if ipv6_is_ipv4_mapped ip
    then ipv4_is_unsafe_destination (drop 12 ip)
    else if ipv6_is_nat64_well_known ip
    then ipv4_is_unsafe_destination (drop 12 ip)
    else if ipv6_is_nat64_local_use ip
    then true
    else if ipv6_is_ipv4_compatible ip
    then true
    else if byte ip 0 == 0 && (byte ip 1 == 0 && (byte ip 14 == 0 && byte ip 15 == 1))
    then true
    else if bit_and (byte ip 0) 0xfe == 0xfc
    then true
    else if byte ip 0 == 0xfe && bit_and (byte ip 1) 0xc0 == 0x80
    then true
    else if byte ip 0 == 0xfe && bit_and (byte ip 1) 0xc0 == 0xc0
    then true
    else if byte ip 0 == 0xff
    then true
    else if ipv6_prefix_matches ip documentation_prefix 32
    then true
    else if ipv6_prefix_matches ip benchmarking_prefix 48
    then true
    else if byte ip 0 == 0x20 && byte ip 1 == 0x02
    then true
    else false
