-- ===== src/Network/Gate.antt =====
-- The two callbacks of ext/curb_easy.c that libcurl asks before it connects:
-- curb_public_network_opensocket and curb_host_allowlist_prereq. What they take from the system
-- (socket(2), inet_ntop, the sizes of structures) and from libcurl (CURL_ERROR_SIZE, the effective
-- URL) are arguments.
pub mod Ranges
pub mod Permitted
pub mod Refused
pub mod Verdict
pub mod Passing
use curb.Base.{
  ℕ, ◌+◌, ◌-◌, ◌/◌, ◌%◌, Bool, true, false, not, ◌&&◌, Option, none, some, [], ◌∷◌, ◌++◌, Bytes,
  codes, ltb, leb, if◌then◌else◌, take,
}
use curb.Easy.{Easy}
use curb.Network.Prefix.{byte}
use curb.Network.Ipv4.{ipv4_is_unsafe_destination}
use curb.Network.Ipv6.{ipv6_is_unsafe_destination}
use curb.Network.Cidr.{Family, ipv4, ipv6}
use curb.Network.Cidr.Strtol.{decimal}
use curb.Network.Host.{try_normalize_host_value}
use curb.Network.Rules.{host_rules_match, cidr_rules_match}
use curb.Ruby.{Result, ok, raise}

pub record Platform : Type 0 where
  -- CURL_ERROR_SIZE
  pub error_size : ℕ
  -- inet_ntop(AF_INET6, ip, buf, len)
  pub inet_ntop : Bytes → ℕ → Option Bytes
  -- sizeof(struct sockaddr_in) and sizeof(struct sockaddr_in6)
  pub sockaddr_in_size : ℕ
  pub sockaddr_in6_size : ℕ

-- AF_INET, AF_INET6, and any other
pub data AddressFamily : Type 0 where
  af_inet af_inet6 af_other : AddressFamily

-- struct curl_sockaddr, with the bytes of sin_addr or sin6_addr
pub record SockAddr : Type 0 where
  pub family : AddressFamily
  pub addrlen : ℕ
  pub ip : Bytes

-- snprintf(buf, size, "%s", text): the buffer ends in a NUL.
abbrev pub snprintf : ℕ → Bytes → Bytes
snprintf size text = take (size - 1) text

-- "%u.%u.%u.%u"
unfoldable pub format_ipv4 : ℕ → Bytes → Bytes
format_ipv4 len ip = snprintf len (
    decimal (byte ip 0)
    ++ (b'.'
        ∷ (decimal (byte ip 1) ++ (b'.' ∷ (decimal (byte ip 2) ++ (b'.' ∷ decimal (byte ip 3)))))))

-- "%02x"
abbrev pub hex_digit : ℕ → ℕ
hex_digit n = if ltb n 10 then b'0' + n else b'a' + (n - 10)

abbrev pub hex_group : Bytes → ℕ → Bytes
hex_group ip i =
    hex_digit (byte ip i / 16)
    ∷ hex_digit (byte ip i % 16)
    ∷ hex_digit (byte ip (i + 1) / 16)
    ∷ hex_digit (byte ip (i + 1) % 16)
    ∷ []

abbrev pub hex_groups : Bytes → Bytes
hex_groups ip =
    hex_group ip 0
    ++ (b':'
        ∷ (hex_group ip 2
            ++ (b':'
                ∷ (hex_group ip 4
                    ++ (b':'
                        ∷ (hex_group ip 6
                            ++ (b':'
                                ∷ (hex_group ip 8
                                    ++ (b':'
                                        ∷ (hex_group ip 10
                                            ++ (b':'
                                                ∷ (hex_group ip 12
                                                    ++ (b':' ∷ hex_group ip 14)))))))))))))

unfoldable pub format_ipv6 : Platform → ℕ → Bytes → Bytes
format_ipv6 p len ip = elim (p.inet_ntop ip len) [
  | some text ↦ text
  | none ↦ snprintf len (hex_groups ip)
]

-- Both stores set the flag and write the same text to the two buffers.
unfoldable pub store_error : Platform → Easy → Bytes → Easy
store_error p e text = record e {
  unsafe_destination_blocked = true;
  unsafe_destination_error = snprintf p.error_size text;
  err_buf = snprintf p.error_size (snprintf p.error_size text);
}

abbrev pub by_policy : Bytes
by_policy = codes " by public network policy"

-- The text of curb_store_destination_error, whose reason is NULL or not empty at every call.
unfoldable pub destination_message : Bytes → Option Bytes → Bytes
destination_message address (some reason) =
    codes "blocked destination address " ++ (address ++ (b' ' ∷ (reason ++ by_policy)))
destination_message address none =
    codes "blocked unsafe destination address " ++ (address ++ by_policy)

unfoldable pub store_destination_error : Platform → Easy → Bytes → Option Bytes → Easy
store_destination_error p e address reason = store_error p e (destination_message address reason)

unfoldable pub store_unsafe_destination_error : Platform → Easy → Bytes → Easy
store_unsafe_destination_error p e address = store_destination_error p e address none

unfoldable pub store_host_allowlist_error : Platform → Easy → Bytes → Easy
store_host_allowlist_error p e host =
    store_error p e (codes "blocked URL host " ++ (host ++ codes " by safe mode host allowlist"))

abbrev pub outside_ranges : Option Bytes
outside_ranges = some (codes "outside allowed CIDR ranges")

-- The family whose checks apply to the address: `checked_destination_address` of the source.
unfoldable pub checked_family : Platform → SockAddr → Option Family
checked_family p a = elim a.family [
  | af_inet ↦ if leb p.sockaddr_in_size a.addrlen then some ipv4 else none
  | af_inet6 ↦ if leb p.sockaddr_in6_size a.addrlen then some ipv6 else none
  | af_other ↦ none
]

abbrev pub is_unsafe_destination : Family → Bytes → Bool
is_unsafe_destination ipv4 ip = ipv4_is_unsafe_destination ip
is_unsafe_destination ipv6 ip = ipv6_is_unsafe_destination ip

-- char address_string[80]
abbrev pub format_ip : Platform → Family → Bytes → Bytes
format_ip p ipv4 ip = format_ipv4 80 ip
format_ip p ipv6 ip = format_ipv6 p 80 ip

-- The state with the error of an address that is refused, or `none`.
unfoldable pub destination_block : Platform → Easy → Family → Bytes → Option Easy
destination_block p e family ip =
    if is_unsafe_destination family ip
    then some (store_unsafe_destination_error p e (format_ip p family ip))
    else if cidr_rules_match e family ip
    then none
    else some (store_destination_error p e (format_ip p family ip) outside_ranges)

abbrev pub has_cidr_rules : Easy → Bool
has_cidr_rules e = elim e.network_allowed_cidr_rules [ [] ↦ false | rule ∷ rules ↦ true ]

-- The refusal of an address, whatever its family.
unfoldable pub address_block : Platform → Easy → SockAddr → Option Easy
address_block p e a = elim (checked_family p a) [
  | some family ↦ destination_block p e family a.ip
  | none ↦
      if has_cidr_rules e
      then some (store_destination_error p e (codes "unknown") outside_ranges)
      else none
]

-- CURL_SOCKET_BAD is `none`; `socket` is socket(2) on the address.
unfoldable pub public_network_opensocket :
    Platform → (SockAddr → Option ℕ) → Easy → Option SockAddr → Easy × Option ℕ
public_network_opensocket p socket e none =
    (store_unsafe_destination_error p e (codes "unknown"), none)
public_network_opensocket p socket e (some a) = elim (address_block p e a) [
  | some e' ↦ (e', none)
  | none ↦ (e, socket a)
]

-- CURL_PREREQFUNC_OK and CURL_PREREQFUNC_ABORT
pub data Prereq : Type 0 where
  prereq_ok prereq_abort : Prereq

abbrev pub has_hosts : Easy → Bool
has_hosts e = elim e.network_allowed_hosts [ [] ↦ false | host ∷ hosts ↦ true ]

-- curb_try_normalize_host_value raises nothing; the last clause makes the function total.
unfoldable pub prereq_of_host : Platform → Easy → Result (Option Bytes) → Easy × Prereq
prereq_of_host p e (ok (some host)) =
    if host_rules_match e host
    then (e, prereq_ok)
    else (store_host_allowlist_error p e host, prereq_abort)
prereq_of_host p e (ok none) = (store_host_allowlist_error p e (codes "unknown"), prereq_abort)
prereq_of_host p e (raise x) = (store_host_allowlist_error p e (codes "unknown"), prereq_abort)

unfoldable pub prereq_of_url : Platform → Easy → Option Bytes → Easy × Prereq
prereq_of_url p e none = (store_host_allowlist_error p e (codes "unknown"), prereq_abort)
prereq_of_url p e (some url) = prereq_of_host p e (try_normalize_host_value (some url))

-- `effective_url` is what curl_easy_getinfo gives, `none` where it fails or gives NULL.
unfoldable pub host_allowlist_prereq : Platform → Option Bytes → Easy → Easy × Prereq
host_allowlist_prereq p effective_url e =
    if has_hosts e then prereq_of_url p e effective_url else (e, prereq_ok)
