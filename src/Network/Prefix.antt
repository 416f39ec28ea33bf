-- ===== src/Network/Prefix.antt =====
-- Address prefixes: curb_ip_prefix_matches of ext/curb_easy.c. An address is the list of its
-- bytes, first byte first, so `ip + 12` of the source is `drop 12 ip`.
pub mod Masks
pub mod Bits
pub mod Agree
use Masks.{prefix_mask}
use curb.Base.{
  ℕ, zero, suc, ◌/◌, ◌%◌, bit_and, Bool, true, false, Bytes, ◌==◌, if◌then◌else◌, get_or,
}

-- ip[i]
abbrev pub byte : Bytes → ℕ → ℕ
byte ip i = get_or ip i 0

-- The loop `for (i = 0; i < full_bytes; i++)`, with `count` rounds left.
unfoldable pub full_bytes_match : (count i : ℕ) → Bytes → Bytes → Bool
full_bytes_match zero i ip prefix = true
full_bytes_match (suc count) i ip prefix =
    let rest = full_bytes_match count (suc i) ip prefix in
    if byte ip i == byte prefix i then rest else false

unfoldable pub last_bits_match : (full_bytes remaining_bits : ℕ) → Bytes → Bytes → Bool
last_bits_match full_bytes remaining_bits ip prefix =
    if remaining_bits == 0
    then true
    else bit_and (byte ip full_bytes) (prefix_mask remaining_bits)
      == bit_and (byte prefix full_bytes) (prefix_mask remaining_bits)

unfoldable pub ip_prefix_matches : Bytes → Bytes → ℕ → Bool
ip_prefix_matches ip prefix bits =
    if full_bytes_match (bits / 8) 0 ip prefix
    then last_bits_match (bits / 8) (bits % 8) ip prefix
    else false

unfoldable pub ipv6_prefix_matches : Bytes → Bytes → ℕ → Bool
ipv6_prefix_matches ip prefix bits = ip_prefix_matches ip prefix bits
