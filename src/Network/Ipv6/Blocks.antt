-- ===== src/Network/Ipv6/Blocks.antt =====
-- The IPv6 test against a table of address blocks, and the IPv4 addresses that IPv6 embeds.
use curb.Base.{
  ℕ, ◌≡◌, refl, Bool, true, false, ◌&&◌, ◌||◌, List, [], ◌∷◌, arith, Bytes, ◌==◌, any,
  if◌then◌else◌, drop, bit_and, inl, inr, Bool-cases,
}
use curb.Network.Prefix.{
  byte, ip_prefix_matches, ipv6_prefix_matches, full_bytes_match, last_bits_match,
}
use curb.Network.Ipv4.{ipv4_is_unsafe_destination}
use curb.Network.Ipv4.Blocks.{Block, in_block, if_true, and_true}
use curb.Network.Ipv6.{
  ipv6_is_all_zero, mapped_prefix, nat64_prefix, nat64_local_prefix, compatible_prefix,
  documentation_prefix, benchmarking_prefix, ipv6_is_ipv4_mapped, ipv6_is_nat64_well_known,
  ipv6_is_nat64_local_use, ipv6_is_ipv4_compatible, ipv6_is_unsafe_destination,
}

abbrev pub block6 : Bytes → ℕ → Block
block6 prefix bits = record { address = prefix; bits = bits }

-- The IPv6 blocks that are not public unicast space, besides those that embed IPv4 addresses.
abbrev pub ipv6_blocks : List Block
ipv6_blocks =
    block6 nat64_local_prefix 48
    ∷ block6 compatible_prefix 96
    ∷ block6 (0xfc ∷ []) 7
    ∷ block6 (0xfe ∷ 0x80 ∷ []) 10
    ∷ block6 (0xfe ∷ 0xc0 ∷ []) 10
    ∷ block6 (0xff ∷ []) 8
    ∷ block6 documentation_prefix 32
    ∷ block6 benchmarking_prefix 48
    ∷ block6 (0x20 ∷ 0x02 ∷ []) 16
    ∷ []

-- An address of 0000::/16 whose last two bytes are 0 and 1.
abbrev pub ends_in_one : Bytes → Bool
ends_in_one ip = byte ip 0 == 0 && (byte ip 1 == 0 && (byte ip 14 == 0 && byte ip 15 == 1))

-- The policy: an embedded IPv4 address is judged as IPv4, any other by the table.
abbrev pub ipv6_policy : Bytes → Bool
ipv6_policy ip =
    if in_block ip (block6 mapped_prefix 96) || in_block ip (block6 nat64_prefix 96)
    then ipv4_is_unsafe_destination (drop 12 ip)
    else ends_in_one ip || any (in_block ip) ipv6_blocks

-- ::/128 lies in ::/96, and outside the two embedding blocks.
all_zero-blocks :
    (ip : Bytes)
    → ipv6_is_all_zero ip ≡ true
    → (in_block ip (block6 mapped_prefix 96) ≡ false)
      × (in_block ip (block6 nat64_prefix 96) ≡ false)
      × (in_block ip (block6 compatible_prefix 96) ≡ true)
unfolding ipv6_is_all_zero ip_prefix_matches full_bytes_match last_bits_match
all_zero-blocks ip h = ground arith

-- One-byte and two-byte prefixes, in the form of the source's tests.
unique_local :
    (ip : Bytes) → ip_prefix_matches ip (0xfc ∷ []) 7 ≡ (bit_and (byte ip 0) 0xfe == 0xfc)
unfolding ip_prefix_matches full_bytes_match last_bits_match
unique_local ip = refl

link_local :
    (ip : Bytes)
    → ip_prefix_matches ip (0xfe ∷ 0x80 ∷ []) 10
      ≡ (byte ip 0 == 0xfe && bit_and (byte ip 1) 0xc0 == 0x80)
unfolding ip_prefix_matches full_bytes_match last_bits_match
link_local ip = simp (if_true, and_true)

site_local :
    (ip : Bytes)
    → ip_prefix_matches ip (0xfe ∷ 0xc0 ∷ []) 10
      ≡ (byte ip 0 == 0xfe && bit_and (byte ip 1) 0xc0 == 0xc0)
unfolding ip_prefix_matches full_bytes_match last_bits_match
site_local ip = simp (if_true, and_true)

multicast : (ip : Bytes) → ip_prefix_matches ip (0xff ∷ []) 8 ≡ (byte ip 0 == 0xff)
unfolding ip_prefix_matches full_bytes_match last_bits_match
multicast ip = simp (if_true, and_true)

six_to_four :
    (ip : Bytes)
    → ip_prefix_matches ip (0x20 ∷ 0x02 ∷ []) 16 ≡ (byte ip 0 == 0x20 && byte ip 1 == 0x02)
unfolding ip_prefix_matches full_bytes_match last_bits_match
six_to_four ip = simp (if_true, and_true)

-- The test is the policy of the table, for every address.
pub ipv6_unsafe-policy : (ip : Bytes) → ipv6_is_unsafe_destination ip ≡ ipv6_policy ip
unfolding ipv6_is_unsafe_destination ipv6_is_ipv4_mapped ipv6_is_nat64_well_known
    ipv6_is_nat64_local_use ipv6_is_ipv4_compatible ipv6_prefix_matches
ipv6_unsafe-policy ip = elim (Bool-cases (ipv6_is_all_zero ip)) [
  | inl z ↦ ground (arith, all_zero-blocks ip z)
  | inr z ↦
      rw (unique_local ip, link_local ip, site_local ip, multicast ip, six_to_four ip, z)
        (ground arith)
]
