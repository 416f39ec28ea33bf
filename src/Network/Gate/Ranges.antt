-- ===== src/Network/Gate/Ranges.antt =====
-- Addresses outside a table of blocks, and within the ranges of an allowlist (ext/curb_easy.c).
use curb.Base.{
  ℕ, zero, suc, ◌<◌, ◌≡◌, refl, inl, inr, true, false, List, [], ◌∷◌, Bytes, All, Exists, any,
  arith, Bool-cases, sym, ◌∙◌,
}
use curb.Easy.{Easy}
use curb.Network.Prefix.Agree.{AreBytes, InBlock, ip_prefix_matches_iff}
use curb.Network.Ipv4.{ipv4_is_unsafe_destination}
use curb.Network.Ipv4.Blocks.{Block, in_block, ipv4_blocks, ipv4_unsafe-blocks}
use curb.Network.Ipv6.Blocks.{ipv6_blocks}
use curb.Network.Cidr.{Family, ipv4, ipv6, CidrRule}
use curb.Network.Rules.{cidrs_match, rule_matches, family_eq}

-- The address lies in no block of the table.
abbrev pub OutsideAll : List Block → Bytes → Type 0
OutsideAll blocks ip = All (λ b. ¬ (InBlock ip b.address b.bits)) blocks

-- The address lies in a range of its family, where there are ranges.
abbrev pub InSomeRange : List CidrRule → Family → Bytes → Type 0
InSomeRange [] family ip = Unit {0}
InSomeRange (rule ∷ rules) family ip =
    Exists (λ r. (r.family ≡ family) × InBlock ip r.address r.prefix_bits) (rule ∷ rules)

pub AreBytes-of_All : (xs : Bytes) → All (λ b. b < 256) xs → AreBytes xs
AreBytes-of_All [] h i = omega arith
AreBytes-of_All (x ∷ xs) h zero = h.0
AreBytes-of_All (x ∷ xs) h (suc i) = AreBytes-of_All xs h.1 i

-- A test that fails on each block puts the address outside them.
pub outside_of_any :
    (blocks : List Block) (ip : Bytes)
    → AreBytes ip
    → All (λ b. All (λ x. x < 256) b.address) blocks
    → any (in_block ip) blocks ≡ false
    → OutsideAll blocks ip
outside_of_any [] ip hi hb h = tt
outside_of_any (b ∷ bs) ip hi hb h = (
  λ inside.
      misses
        ((ip_prefix_matches_iff ip b.address hi (AreBytes-of_All b.address hb.0) b.bits).1 inside),
  outside_of_any bs ip hi hb.1 (ground arith),
)
  where
    misses : in_block ip b ≡ true → ⊥
    misses m = ground arith

ipv4_blocks-bytes : All (λ b. All (λ x. x < 256) b.address) ipv4_blocks
ipv4_blocks-bytes = omega arith

pub ipv6_blocks-bytes : All (λ b. All (λ x. x < 256) b.address) ipv6_blocks
ipv6_blocks-bytes = omega arith

-- The rules that curb_parse_cidr_rule makes hold bytes.
abbrev pub RulesAreBytes : Easy → Type 0
RulesAreBytes e = All (λ r. AreBytes r.address) e.network_allowed_cidr_rules

pub ipv4_outside :
    (a b c d : ℕ)
    → let ip = a ∷ b ∷ c ∷ d ∷ [] in
      All (λ x. x < 256) ip → ipv4_is_unsafe_destination ip ≡ false → OutsideAll ipv4_blocks ip
ipv4_outside a b c d h safe =
    outside_of_any ipv4_blocks (a ∷ b ∷ c ∷ d ∷ []) (AreBytes-of_All (a ∷ b ∷ c ∷ d ∷ []) h)
      ipv4_blocks-bytes (sym (ipv4_unsafe-blocks a b c d h.0 h.1.0) ∙ safe)

family_of_eq : (f g : Family) → family_eq f g ≡ true → f ≡ g
family_of_eq ipv4 ipv4 h = refl
family_of_eq ipv4 ipv6 h = cc
family_of_eq ipv6 ipv4 h = cc
family_of_eq ipv6 ipv6 h = refl

rule_in_range :
    (family : Family) (ip : Bytes) (r : CidrRule)
    → AreBytes ip
    → AreBytes r.address
    → rule_matches family ip r ≡ true
    → (r.family ≡ family) × InBlock ip r.address r.prefix_bits
rule_in_range family ip r hi hr h = (
  family_of_eq r.family family (ground arith),
  (ip_prefix_matches_iff ip r.address hi hr r.prefix_bits).0 (ground arith),
)

ranges_of_any :
    (rules : List CidrRule) (family : Family) (ip : Bytes)
    → AreBytes ip
    → All (λ r. AreBytes r.address) rules
    → any (rule_matches family ip) rules ≡ true
    → Exists (λ r. (r.family ≡ family) × InBlock ip r.address r.prefix_bits) rules
ranges_of_any [] family ip hi hr h = absurd (ground arith)
ranges_of_any (r ∷ rs) family ip hi hr h = elim (Bool-cases (rule_matches family ip r)) [
  | inl e ↦ inl (rule_in_range family ip r hi hr.0 e)
  | inr e ↦ inr (ranges_of_any rs family ip hi hr.1 (ground arith))
]

pub in_some_range :
    (rules : List CidrRule) (family : Family) (ip : Bytes)
    → AreBytes ip
    → All (λ r. AreBytes r.address) rules
    → cidrs_match rules family ip ≡ true
    → InSomeRange rules family ip
in_some_range [] family ip hi hr h = tt
in_some_range (r ∷ rs) family ip hi hr h = ranges_of_any (r ∷ rs) family ip hi hr h

-- And the other way: an address outside the blocks fails the tests, one in a range passes them.
any_of_outside :
    (blocks : List Block) (ip : Bytes)
    → AreBytes ip
    → All (λ b. All (λ x. x < 256) b.address) blocks
    → OutsideAll blocks ip
    → any (in_block ip) blocks ≡ false
any_of_outside [] ip hi hb out = refl
any_of_outside (b ∷ bs) ip hi hb out = elim (Bool-cases (in_block ip b)) [
  | inl e ↦
      absurd (
        out.0 ((ip_prefix_matches_iff ip b.address hi (AreBytes-of_All b.address hb.0) b.bits).0 e))
  | inr e ↦ rw e (any_of_outside bs ip hi hb.1 out.1)
]

pub ipv4_safe :
    (a b c d : ℕ)
    → let ip = a ∷ b ∷ c ∷ d ∷ [] in
      All (λ x. x < 256) ip → OutsideAll ipv4_blocks ip → ipv4_is_unsafe_destination ip ≡ false
ipv4_safe a b c d h out =
    ipv4_unsafe-blocks a b c d h.0 h.1.0
    ∙ any_of_outside ipv4_blocks (a ∷ b ∷ c ∷ d ∷ []) (AreBytes-of_All (a ∷ b ∷ c ∷ d ∷ []) h)
        ipv4_blocks-bytes out

family_eq_refl : (f : Family) → family_eq f f ≡ true
family_eq_refl ipv4 = refl
family_eq_refl ipv6 = refl

range_matches :
    (family : Family) (ip : Bytes) (r : CidrRule)
    → AreBytes ip
    → AreBytes r.address
    → r.family ≡ family
    → InBlock ip r.address r.prefix_bits
    → rule_matches family ip r ≡ true
range_matches family ip r hi hr same inside =
    let matches = (ip_prefix_matches_iff ip r.address hi hr r.prefix_bits).1 inside in
    rw (same, family_eq_refl family) matches

any_of_range :
    (rules : List CidrRule) (family : Family) (ip : Bytes)
    → AreBytes ip
    → All (λ r. AreBytes r.address) rules
    → Exists (λ r. (r.family ≡ family) × InBlock ip r.address r.prefix_bits) rules
    → any (rule_matches family ip) rules ≡ true
any_of_range [] family ip hi hr some_range = absurd some_range
any_of_range (r ∷ rs) family ip hi hr (inl here) =
    let e = range_matches family ip r hi hr.0 here.0 here.1 in ground arith
any_of_range (r ∷ rs) family ip hi hr (inr later) =
    let e = any_of_range rs family ip hi hr.1 later in ground arith

pub matches_of_range :
    (rules : List CidrRule) (family : Family) (ip : Bytes)
    → AreBytes ip
    → All (λ r. AreBytes r.address) rules
    → InSomeRange rules family ip
    → cidrs_match rules family ip ≡ true
matches_of_range [] family ip hi hr h = refl
matches_of_range (r ∷ rs) family ip hi hr h = any_of_range (r ∷ rs) family ip hi hr h
