-- ===== src/Examples/Network.antt =====
-- The theorems of the network policy at concrete inputs (ext/curb_easy.c).
use curb.Network.Prefix.{full_bytes_match, last_bits_match, ip_prefix_matches, ipv6_prefix_matches}
use curb.Network.Cidr.{
  split_at, after_bracket, plain_parts, bracketed_parts, cidr_parts, prefix_of_long, prefix_length,
  parse_address, parse_cidr_rule, ipv4, ipv6, CidrRule,
}
use curb.Network.Cidr.Strtol.{skip_space, scan_digits, long_of_digits, signed_long, strtol, decimal}
use curb.Network.Host.{normalize_host_value, try_normalize_host_value}
use curb.Network.Ipv6.{
  ipv6_is_all_zero, ipv6_is_ipv4_mapped, ipv6_is_ipv4_compatible, ipv6_is_nat64_well_known,
  ipv6_is_nat64_local_use, ipv6_is_unsafe_destination,
}
use curb.Network.Rules.{cidr_rules_match}
use curb.Network.Gate.{
  checked_family, destination_block, af_inet, af_other, public_network_opensocket,
  host_allowlist_prereq, address_block, prereq_ok, prereq_abort,
}
use curb.Easy.{zero, Easy}
use curb.Base.{
  ◌≡◌, refl, ◌↔◌, ◌⊎◌, true, none, some, [], ◌∷◌, ◌++◌, Bytes, codes, any, length, arith,
}
use curb.Examples.State.{fresh, ten, toy_pton, platform, seven}
use curb.Network.Prefix.Agree.{InBlock, ip_prefix_matches_iff}
use curb.Network.Ipv4.{ipv4_is_unsafe_destination}
use curb.Network.Ipv4.Blocks.{ipv4_blocks, in_block, ipv4_unsafe-blocks}
use curb.Network.Ipv6.Blocks.{ipv6_policy, ipv6_unsafe-policy, ipv6_blocks}
use curb.Network.Cidr.Parse.{
  IsRule, IsInetPton, parse_cidr_rule-IsRule, checked_rule, parse_cidr_rule-print,
}
use curb.Network.Host.Shape.{SameHost, normalize-SameHost}
use curb.Network.Host.Url.{Url}
use curb.Network.Gate.Ranges.{AreBytes-of_All, OutsideAll, InSomeRange}
use curb.Network.Gate.Permitted.{Embeds, sockaddr, opensocket-ipv6}
use curb.Network.Gate.Passing.{OfSomeHost, prereq-verdict}
use curb.Network.Gate.Verdict.{Stored, Permitted4, Refusal, opensocket-verdict}

abbrev public_ip : Bytes
public_ip = 93 ∷ 184 ∷ 216 ∷ 34 ∷ []

abbrev ten_zero : Bytes
ten_zero = 10 ∷ 0 ∷ 0 ∷ 0 ∷ []

ip_prefix_matches_iff_example :
    (ip_prefix_matches public_ip ten_zero 8 ≡ true) ↔ InBlock public_ip ten_zero 8
ip_prefix_matches_iff_example =
    ip_prefix_matches_iff public_ip ten_zero (AreBytes-of_All public_ip (omega arith))
      (AreBytes-of_All ten_zero (omega arith)) 8

ipv4_unsafe-blocks_example :
    ipv4_is_unsafe_destination (192 ∷ 168 ∷ 1 ∷ 1 ∷ [])
    ≡ any (in_block (192 ∷ 168 ∷ 1 ∷ 1 ∷ [])) ipv4_blocks
ipv4_unsafe-blocks_example = ipv4_unsafe-blocks 192 168 1 1 (omega arith) (omega arith)

abbrev loopback : Bytes
loopback = 0 ∷ 0 ∷ 0 ∷ 0 ∷ 0 ∷ 0 ∷ 0 ∷ 0 ∷ 0 ∷ 0 ∷ 0 ∷ 0 ∷ 0 ∷ 0 ∷ 0 ∷ 1 ∷ []

ipv6_unsafe-policy_example : ipv6_is_unsafe_destination loopback ≡ ipv6_policy loopback
ipv6_unsafe-policy_example = ipv6_unsafe-policy loopback

-- An address that inet_pton reads has the length of its family.
four : (text parsed : Bytes) → toy_pton ipv4 text ≡ some parsed → length parsed ≡ 4
four text parsed h = ground arith

sixteen : (text parsed : Bytes) → toy_pton ipv6 text ≡ some parsed → length parsed ≡ 16
sixteen text parsed h = ground arith

abbrev toy_IsInetPton : IsInetPton toy_pton
toy_IsInetPton = record { four = four; sixteen = sixteen }

abbrev ten_text : Bytes
ten_text = codes "10.0.0.0/8"

abbrev ten_rule : CidrRule
ten_rule = record {
  family = ipv4;
  prefix_bits = 8;
  address = 10 ∷ 0 ∷ 0 ∷ 0 ∷ 0 ∷ 0 ∷ 0 ∷ 0 ∷ 0 ∷ 0 ∷ 0 ∷ 0 ∷ 0 ∷ 0 ∷ 0 ∷ 0 ∷ [];
}

parse_cidr_rule-IsRule_example : IsRule ten_rule
unfolding split_at after_bracket plain_parts bracketed_parts cidr_parts prefix_of_long prefix_length
    parse_address parse_cidr_rule skip_space scan_digits long_of_digits signed_long strtol decimal
parse_cidr_rule-IsRule_example =
    parse_cidr_rule-IsRule toy_pton toy_IsInetPton ten_text ten_rule refl

parse_cidr_rule-print_example :
    (parse_cidr_rule toy_pton (ten ++ b'/' ∷ decimal 33) ≡ checked_rule ipv4 ten_rule.address 33)
    × (parse_cidr_rule toy_pton (b'[' ∷ (ten ++ b']' ∷ b'/' ∷ decimal 33))
        ≡ checked_rule ipv4 ten_rule.address 33)
parse_cidr_rule-print_example =
    parse_cidr_rule-print toy_pton ten 33 ipv4 (10 ∷ 0 ∷ 0 ∷ 0 ∷ []) (omega arith) refl
      (ground arith) (ground arith)

abbrev page : Url
page = record {
  scheme_first = b'h';
  scheme_rest = codes "ttp";
  userinfo = some (codes "a@b:c");
  host_first = b'E';
  host_rest = codes "xample.org";
  port = some (codes "8080");
  tail = codes "/?x=://y";
}

normalize-SameHost_example :
    SameHost
      (normalize_host_value (some (codes " FOO. ")))
      (try_normalize_host_value (some (codes " FOO. ")))
normalize-SameHost_example = normalize-SameHost (some (codes " FOO. "))

-- 2606:2800:220:1:248:1893:25c8:1946
abbrev front : Bytes
front = 0x26 ∷ 0x06 ∷ 0x28 ∷ 0x00 ∷ 0x02 ∷ 0x20 ∷ 0x00 ∷ 0x01 ∷ 0x02 ∷ 0x48 ∷ 0x18 ∷ 0x93 ∷ []

abbrev public_ip6 : Bytes
public_ip6 = front ++ 0x25 ∷ 0xc8 ∷ 0x19 ∷ 0x46 ∷ []

opensocket-ipv6_example :
    ((Embeds public_ip6 × OutsideAll ipv4_blocks (0x25 ∷ 0xc8 ∷ 0x19 ∷ 0x46 ∷ []))
      ⊎ (¬ (Embeds public_ip6) × OutsideAll ipv6_blocks public_ip6))
    × InSomeRange fresh.network_allowed_cidr_rules ipv6 public_ip6
unfolding full_bytes_match last_bits_match ip_prefix_matches ipv6_prefix_matches ipv6_is_all_zero
    ipv6_is_ipv4_mapped ipv6_is_ipv4_compatible ipv6_is_nat64_well_known ipv6_is_nat64_local_use
    ipv6_is_unsafe_destination public_network_opensocket address_block checked_family
    destination_block ipv4_is_unsafe_destination cidr_rules_match zero
opensocket-ipv6_example =
    opensocket-ipv6 platform seven fresh fresh front 0x25 0xc8 0x19 0x46 28 7 refl
      (AreBytes-of_All public_ip6 (omega arith)) (omega arith) tt (omega arith) refl

-- A private address is refused.
opensocket-verdict_example :
    ((Permitted4 fresh ten_zero
        × (public_network_opensocket platform seven fresh (some (sockaddr af_inet 16 ten_zero))
            ≡ (fresh, seven (sockaddr af_inet 16 ten_zero))))
      ⊎ (¬ (Permitted4 fresh ten_zero)
          × Refusal fresh (
              public_network_opensocket platform seven fresh
                (some (sockaddr af_inet 16 ten_zero)))))
    × (((fresh.network_allowed_cidr_rules ≡ [])
          × (public_network_opensocket platform seven fresh (some (sockaddr af_other 16 ten_zero))
              ≡ (fresh, seven (sockaddr af_other 16 ten_zero))))
        ⊎ (¬ (fresh.network_allowed_cidr_rules ≡ [])
            × Refusal fresh (
                public_network_opensocket platform seven fresh
                  (some (sockaddr af_other 16 ten_zero)))))
    × Refusal fresh (public_network_opensocket platform seven fresh none)
unfolding zero
opensocket-verdict_example =
    opensocket-verdict platform seven fresh 10 0 0 0 16 (omega arith) tt (omega arith)

abbrev one_host : Easy
one_host = record fresh { network_allowed_hosts = codes "a.org" ∷ [] }

prereq-verdict_example :
    (OfSomeHost one_host.network_allowed_hosts
        (try_normalize_host_value (some (codes "http://b.org/")))
      × (host_allowlist_prereq platform (some (codes "http://b.org/")) one_host
          ≡ (one_host, prereq_ok)))
    ⊎ (¬ (
          OfSomeHost one_host.network_allowed_hosts
            (try_normalize_host_value (some (codes "http://b.org/"))))
        × ((host_allowlist_prereq platform (some (codes "http://b.org/")) one_host).1
            ≡ prereq_abort)
        × Stored one_host
            (host_allowlist_prereq platform (some (codes "http://b.org/")) one_host).0)
prereq-verdict_example = prereq-verdict platform (some (codes "http://b.org/")) one_host
