-- ===== src/Network/Gate/Permitted.antt =====
-- What the callbacks of ext/curb_easy.c let through, in terms of address blocks and of the allowlists.
use curb.Base.{
  ℕ, zero, suc, ◌<◌, ◌≤◌, ◌++◌, ◌≡◌, refl, ◌⊎◌, inl, inr, Bool, true, false, ◌||◌, Option, none,
  some, [], ◌∷◌, Bytes, All, drop, length, arith, Bool-cases, Option-cases, sym, ◌≤◌, ◌∙◌,
}
use curb.Easy.{Easy}
use curb.Network.Prefix.Agree.{AreBytes, InBlock, ip_prefix_matches_iff}
use curb.Network.Ipv4.Blocks.{in_block, ipv4_blocks}
use curb.Network.Ipv6.{ipv6_is_unsafe_destination, mapped_prefix, nat64_prefix}
use curb.Network.Ipv6.Blocks.{block6, ipv6_blocks, ipv6_unsafe-policy, ipv6_policy}
use curb.Network.Cidr.{Family, ipv6}
use curb.Network.Rules.{cidr_rules_match}
use curb.Network.Gate.{
  Platform, AddressFamily, SockAddr, af_inet6, checked_family, destination_block, address_block,
  public_network_opensocket, is_unsafe_destination,
}
use curb.Network.Gate.Ranges.{
  OutsideAll, InSomeRange, AreBytes-of_All, outside_of_any, ipv6_blocks-bytes, RulesAreBytes,
  ipv4_outside, in_some_range,
}

abbrev pub sockaddr : AddressFamily → ℕ → Bytes → SockAddr
sockaddr family n ip = record { family = family; addrlen = n; ip = ip }

module _ (p : Platform) (socket : SockAddr → Option ℕ) (e e' : Easy) (a : SockAddr) (fd : ℕ)
    (opened : public_network_opensocket p socket e (some a) ≡ (e', some fd)) where
  opened_parts : (address_block p e a ≡ none) × (e' ≡ e) × (socket a ≡ some fd)
  unfolding public_network_opensocket
  opened_parts = elim (Option-cases (address_block p e a)) [
    | inl free ↦ (free, ground arith, ground arith)
    | inr (x, held) ↦ absurd (ground arith)
  ]

  opened_checked :
      (family : Family)
      → checked_family p a ≡ some family
      → (is_unsafe_destination family a.ip ≡ false) × (cidr_rules_match e family a.ip ≡ true)
  unfolding address_block destination_block
  opened_checked family c = ground (arith, opened_parts)

drop-append : (n : ℕ) (xs ys : Bytes) → length xs ≡ n → drop n (xs ++ ys) ≡ ys
drop-append zero [] ys h = refl
drop-append zero (x ∷ xs) ys h = absurd (omega arith)
drop-append (suc n) [] ys h = absurd (omega arith)
drop-append (suc n) (x ∷ xs) ys h = drop-append n xs ys (omega arith)

-- The block of IPv4-mapped addresses or that of the well-known NAT64 prefix.
abbrev pub Embeds : Bytes → Type 0
Embeds ip = InBlock ip mapped_prefix 96 ⊎ InBlock ip nat64_prefix 96

abbrev embeds : Bytes → Bool
embeds ip = in_block ip (block6 mapped_prefix 96) || in_block ip (block6 nat64_prefix 96)

in_block_iff :
    (ip prefix : Bytes) (bits : ℕ)
    → AreBytes ip
    → All (λ x. x < 256) prefix
    → InBlock ip prefix bits
    → in_block ip (block6 prefix bits) ≡ true
in_block_iff ip prefix bits h hp inside =
    (ip_prefix_matches_iff ip prefix h (AreBytes-of_All prefix hp) bits).1 inside

embeds_of : (ip : Bytes) → AreBytes ip → Embeds ip → embeds ip ≡ true
embeds_of ip h (inl m) = rw (in_block_iff ip mapped_prefix 96 h (omega arith) m) refl
embeds_of ip h (inr m) = ground (arith, in_block_iff ip nat64_prefix 96 h (omega arith) m)

of_embeds : (ip : Bytes) → AreBytes ip → embeds ip ≡ true → Embeds ip
of_embeds ip h e = elim (Bool-cases (in_block ip (block6 mapped_prefix 96))) [
  | inl m ↦ inl (
      (ip_prefix_matches_iff ip mapped_prefix h (AreBytes-of_All mapped_prefix (omega arith)) 96).0
        m)
  | inr m ↦ inr (
      (ip_prefix_matches_iff ip nat64_prefix h (AreBytes-of_All nat64_prefix (omega arith)) 96).0
        (ground arith))
]

-- What a safe IPv6 address is outside of.
ipv6_outside :
    (front : Bytes) (a b c d : ℕ)
    → let ip = front ++ a ∷ b ∷ c ∷ d ∷ [] in
      length front ≡ 12
      → AreBytes ip
      → All (λ x. x < 256) (a ∷ b ∷ c ∷ d ∷ [])
      → ipv6_is_unsafe_destination ip ≡ false
      → (Embeds ip × OutsideAll ipv4_blocks (a ∷ b ∷ c ∷ d ∷ []))
        ⊎ (¬ (Embeds ip) × OutsideAll ipv6_blocks ip)
ipv6_outside front a b c d len hi h safe = elim (Bool-cases (embeds ip)) [
  | inl e ↦ inl (of_embeds ip hi e, ipv4_outside a b c d h (ground (arith, policy, last, e)))
  | inr e ↦ inr (
    λ m. true_false (sym (embeds_of ip hi m) ∙ e),
    outside_of_any ipv6_blocks ip hi ipv6_blocks-bytes (ground (arith, policy, e)),
  )
]
  where
    ip : Bytes
    ip = front ++ a ∷ b ∷ c ∷ d ∷ []

    policy : ipv6_policy ip ≡ false
    policy = sym (ipv6_unsafe-policy ip) ∙ safe

    last : drop 12 ip ≡ a ∷ b ∷ c ∷ d ∷ []
    last = drop-append 12 front (a ∷ b ∷ c ∷ d ∷ []) len

    true_false : true ≡ false → ⊥
    true_false t = cc

-- For an IPv6 address of sixteen bytes in a structure of at least the size of sockaddr_in6, and
-- rules whose addresses are bytes: if the callback opens a socket, the address is within an allowed
-- range if there are any. If it is IPv4-mapped or NAT64, the IPv4 address in its last four bytes is
-- outside every IPv4 block of the policy; if not, it is outside every IPv6 block.
pub opensocket-ipv6 :
    (p : Platform) (socket : SockAddr → Option ℕ) (e e' : Easy) (front : Bytes) (a b c d n fd : ℕ)
    → let ip = front ++ a ∷ b ∷ c ∷ d ∷ [] in
      length front ≡ 12
      → AreBytes ip
      → All (λ x. x < 256) (a ∷ b ∷ c ∷ d ∷ [])
      → RulesAreBytes e
      → p.sockaddr_in6_size ≤ n
      → public_network_opensocket p socket e (some (sockaddr af_inet6 n ip)) ≡ (e', some fd)
      → ((Embeds ip × OutsideAll ipv4_blocks (a ∷ b ∷ c ∷ d ∷ []))
          ⊎ (¬ (Embeds ip) × OutsideAll ipv6_blocks ip))
        × InSomeRange e.network_allowed_cidr_rules ipv6 ip
unfolding checked_family cidr_rules_match
opensocket-ipv6 p socket e e' front a b c d n fd len hi h hr size opened = (
  ipv6_outside front a b c d len hi h checked.0,
  in_some_range e.network_allowed_cidr_rules ipv6 ip hi hr checked.1,
)
  where
    ip : Bytes
    ip = front ++ a ∷ b ∷ c ∷ d ∷ []

    checked_as : checked_family p (sockaddr af_inet6 n ip) ≡ some ipv6
    checked_as = ground arith

    checked : (ipv6_is_unsafe_destination ip ≡ false) × (cidr_rules_match e ipv6 ip ≡ true)
    checked = opened_checked p socket e e' (sockaddr af_inet6 n ip) fd opened ipv6 checked_as
