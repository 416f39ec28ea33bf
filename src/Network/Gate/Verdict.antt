-- ===== src/Network/Gate/Verdict.antt =====
-- Which addresses the socket callback of ext/curb_easy.c refuses, and what it leaves behind then.
use curb.Base.{
  ℕ, zero, suc, ◌-◌, ◌<◌, ◌≤◌, ◌≡◌, refl, sym, ◌∙◌, ◌⊎◌, inl, inr, true, false, Option, none, some,
  List, [], ◌∷◌, Bytes, All, take, arith, Bool-cases, codes, ap,
}
use curb.Easy.{Easy}
use curb.Network.Ipv4.{ipv4_is_unsafe_destination}
use curb.Network.Ipv4.Blocks.{ipv4_blocks}
use curb.Network.Cidr.{CidrRule, Family, ipv4}
use curb.Network.Rules.{cidr_rules_match}
use curb.Network.Gate.{
  Platform, SockAddr, af_inet, af_other, checked_family, destination_block, address_block,
  public_network_opensocket, store_error, store_destination_error, store_unsafe_destination_error,
  destination_message, format_ip, outside_ranges, is_unsafe_destination, has_cidr_rules,
}
use curb.Network.Gate.Permitted.{sockaddr}
use curb.Network.Gate.Ranges.{
  OutsideAll, InSomeRange, RulesAreBytes, AreBytes-of_All, ipv4_outside, ipv4_safe, in_some_range,
  matches_of_range,
}

take-take : (n : ℕ) (xs : Bytes) → take n (take n xs) ≡ take n xs
take-take zero xs = refl
take-take (suc n) [] = refl
take-take (suc n) (x ∷ xs) = ap (λ ys. x ∷ ys) (take-take n xs)

-- The flag is set, one text stands in both buffers, and nothing else has changed.
abbrev pub Stored : Easy → Easy → Type 0
Stored e e' =
    (text : Bytes) × (e' ≡ record e {
      unsafe_destination_blocked = true;
      unsafe_destination_error = text;
      err_buf = text;
    })

-- No socket is opened, and the error is stored.
abbrev pub Refusal : Easy → Easy × Option ℕ → Type 0
Refusal e r = (r.1 ≡ none) × Stored e r.0

pub store_error-Stored : (p : Platform) (e : Easy) (text : Bytes) → Stored e (store_error p e text)
unfolding store_error
store_error-Stored p e text = (
  take (p.error_size - 1) text,
  ap
      (λ t. record e {
        unsafe_destination_blocked = true;
        unsafe_destination_error = take (p.error_size - 1) text;
        err_buf = t;
      })
      (take-take (p.error_size - 1) text),
)

stored-Refusal : (p : Platform) (e : Easy) (text : Bytes) → Refusal e (store_error p e text, none)
stored-Refusal p e text = (refl, store_error-Stored p e text)

true-false : true ≡ false → ⊥
true-false t = cc

cons_nil : (rule : CidrRule) (rules : List CidrRule) → rule ∷ rules ≡ [] → ⊥
cons_nil rule rules h = cc

rules-cases :
    (e : Easy)
    → ((e.network_allowed_cidr_rules ≡ []) × (has_cidr_rules e ≡ false))
      ⊎ (¬ (e.network_allowed_cidr_rules ≡ []) × (has_cidr_rules e ≡ true))
rules-cases e = go e.network_allowed_cidr_rules refl
  where
    go :
        (rules : List CidrRule)
        → e.network_allowed_cidr_rules ≡ rules
        → ((e.network_allowed_cidr_rules ≡ []) × (has_cidr_rules e ≡ false))
          ⊎ (¬ (e.network_allowed_cidr_rules ≡ []) × (has_cidr_rules e ≡ true))
    go [] h = inl (h, rw h refl)
    go (r ∷ rs) h = inr (λ no_rules. cons_nil r rs (sym h ∙ no_rules), rw h refl)

module _ (p : Platform) (socket : SockAddr → Option ℕ) (e : Easy) where
  -- What becomes of an address that is checked as one of a family.
  checked_verdict :
      (a : SockAddr) (family : Family)
      → checked_family p a ≡ some family
      → let r = public_network_opensocket p socket e (some a) in
        ((is_unsafe_destination family a.ip ≡ false)
          × (cidr_rules_match e family a.ip ≡ true)
          × (r ≡ (e, socket a)))
        ⊎ (((is_unsafe_destination family a.ip ≡ true) ⊎ (cidr_rules_match e family a.ip ≡ false))
            × Refusal e r)
  unfolding public_network_opensocket address_block destination_block store_destination_error
      store_unsafe_destination_error
  checked_verdict a family c = elim (Bool-cases (is_unsafe_destination family a.ip)) [
    | inl u ↦
        let text = destination_message (format_ip p family a.ip) none in
        inr (
          inl u,
          rw (c, u, public_network_opensocket, address_block, destination_block)
              (stored-Refusal p e text),
        )
    | inr u ↦ elim (Bool-cases (cidr_rules_match e family a.ip)) [
      | inl m ↦
          inl (u, m, rw (c, u, m, public_network_opensocket, address_block, destination_block) refl)
      | inr m ↦
          let text = destination_message (format_ip p family a.ip) outside_ranges in
          inr (
            inr m,
            rw (c, u, m, public_network_opensocket, address_block, destination_block)
                (stored-Refusal p e text),
          )
    ]
  ]

  missing_verdict : Refusal e (public_network_opensocket p socket e none)
  unfolding public_network_opensocket store_unsafe_destination_error store_destination_error
  missing_verdict = stored-Refusal p e (destination_message (codes "unknown") none)

  other_verdict :
      (n : ℕ) (ip : Bytes)
      → let r = public_network_opensocket p socket e (some (sockaddr af_other n ip)) in
        ((e.network_allowed_cidr_rules ≡ []) × (r ≡ (e, socket (sockaddr af_other n ip))))
        ⊎ (¬ (e.network_allowed_cidr_rules ≡ []) × Refusal e r)
  unfolding public_network_opensocket address_block store_destination_error checked_family
  other_verdict n ip = elim (rules-cases e) [
    | inl (no_rules, without) ↦ inl (no_rules, rw (without, public_network_opensocket) refl)
    | inr (some_rules, with_rules) ↦
        let text = destination_message (codes "unknown") outside_ranges in
        inr (some_rules, rw (with_rules, public_network_opensocket) (stored-Refusal p e text))
  ]

-- What the policy and the allowlist of the easy permit of an address of four bytes.
abbrev pub Permitted4 : Easy → Bytes → Type 0
Permitted4 e ip = OutsideAll ipv4_blocks ip × InSomeRange e.network_allowed_cidr_rules ipv4 ip

-- For an IPv4 address of four bytes in a structure of at least the size of sockaddr_in, and rules
-- whose addresses are bytes: where the address is outside every block of the policy, and within an
-- allowed range if there are any, the callback gives what socket(2) gives and leaves the state;
-- where not, it opens nothing, sets the flag and stores one text in both buffers, and nothing else
-- changes. An address of a family that is not checked gets its socket exactly if there are no allowed
-- ranges, and a missing address is always refused.
pub opensocket-verdict :
    (p : Platform) (socket : SockAddr → Option ℕ) (e : Easy) (a b c d n : ℕ)
    → let ip = a ∷ b ∷ c ∷ d ∷ [] in
      let checked = public_network_opensocket p socket e (some (sockaddr af_inet n ip)) in
      let other = public_network_opensocket p socket e (some (sockaddr af_other n ip)) in
      All (λ x. x < 256) ip
      → RulesAreBytes e
      → p.sockaddr_in_size ≤ n
      → ((Permitted4 e ip × (checked ≡ (e, socket (sockaddr af_inet n ip))))
          ⊎ (¬ (Permitted4 e ip) × Refusal e checked))
        × (((e.network_allowed_cidr_rules ≡ []) × (other ≡ (e, socket (sockaddr af_other n ip))))
            ⊎ (¬ (e.network_allowed_cidr_rules ≡ []) × Refusal e other))
        × Refusal e (public_network_opensocket p socket e none)
unfolding checked_family cidr_rules_match
opensocket-verdict p socket e a b c d n h hr size = (
  elim (checked_verdict p socket e at_address ipv4 checked_as) [
    | inl (safe, match, opened) ↦ inl (
      (
        ipv4_outside a b c d h safe,
        in_some_range e.network_allowed_cidr_rules ipv4 ip (AreBytes-of_All ip h) hr match,
      ),
      opened,
    )
    | inr (held, refusal) ↦ inr (λ permitted. passes held permitted.0 permitted.1, refusal)
  ],
  other_verdict p socket e n (a ∷ b ∷ c ∷ d ∷ []),
  missing_verdict p socket e,
)
  where
    ip : Bytes
    ip = a ∷ b ∷ c ∷ d ∷ []

    at_address : SockAddr
    at_address = sockaddr af_inet n ip

    checked_as : checked_family p at_address ≡ some ipv4
    checked_as = ground arith

    passes :
        (ipv4_is_unsafe_destination ip ≡ true) ⊎ (cidr_rules_match e ipv4 ip ≡ false)
        → OutsideAll ipv4_blocks ip
        → InSomeRange e.network_allowed_cidr_rules ipv4 ip
        → ⊥
    passes (inl unsafe) out range = true-false (sym unsafe ∙ ipv4_safe a b c d h out)
    passes (inr miss) out range = true-false (
        sym (matches_of_range e.network_allowed_cidr_rules ipv4 ip (AreBytes-of_All ip h) hr range)
        ∙ miss)
