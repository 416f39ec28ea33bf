-- ===== src/Network/Prefix/Agree.antt =====
-- What curb_ip_prefix_matches decides.
use curb.Base.{
  ℕ, zero, suc, ◌+◌, ◌*◌, ◌/◌, ◌%◌, ◌<◌, ◌≤◌, ◌≡◌, ◌↔◌, refl, true, false, arith, inl, inr, Bytes,
  ◌==◌, ==_iff, Bool-cases, ap₂, ap, sym, ◌∙◌,
}
use curb.Network.Prefix.Bits.{byte_bit, SameBits, masks_agree_iff, bytes_agree_iff}
use curb.Network.Prefix.{byte, full_bytes_match, last_bits_match, ip_prefix_matches}

-- Bit k of an address in network order, bit 0 the most significant of the first byte.
unfoldable pub address_bit : Bytes → ℕ → ℕ
address_bit ip k = byte_bit (byte ip (k / 8)) (k % 8)

-- The first `bits` bits are the same: membership of the block prefix/bits.
abbrev pub InBlock : Bytes → Bytes → ℕ → Type 0
InBlock ip prefix bits = (k : ℕ) → k < bits → address_bit ip k ≡ address_bit prefix k

abbrev pub AreBytes : Bytes → Type 0
AreBytes ip = (i : ℕ) → byte ip i < 256

full_bytes_match_parts :
    (n i : ℕ) (ip p : Bytes)
    → full_bytes_match (suc n) i ip p ≡ true
    → ((byte ip i == byte p i) ≡ true) × (full_bytes_match n (suc i) ip p ≡ true)
unfolding full_bytes_match
full_bytes_match_parts n i ip p h = ground arith

full_bytes_match_sound :
    (n i : ℕ) (ip p : Bytes)
    → full_bytes_match n i ip p ≡ true
    → (m : ℕ) → i ≤ m
    → m < i + n
    → byte ip m ≡ byte p m
full_bytes_match_sound zero i ip p h m low high = absurd (omega arith)
full_bytes_match_sound (suc n) i ip p h m low high = elim (Bool-cases (m == i)) [
  | inl here ↦ rw ((==_iff m i).0 here) ((==_iff _ _).0 (parts.0))
  | inr later ↦ full_bytes_match_sound n (suc i) ip p parts.1 m (ground arith) (omega arith)
]
  where
    parts : ((byte ip i == byte p i) ≡ true) × (full_bytes_match n (suc i) ip p ≡ true)
    parts = full_bytes_match_parts n i ip p h

full_bytes_match_complete :
    (n i : ℕ) (ip p : Bytes)
    → ((m : ℕ) → i ≤ m → m < i + n → byte ip m ≡ byte p m)
    → full_bytes_match n i ip p ≡ true
unfolding full_bytes_match
full_bytes_match_complete zero i ip p h = refl
full_bytes_match_complete (suc n) i ip p h =
    rw ((==_iff _ _).1 (h i (omega arith) (omega arith)))
      (full_bytes_match_complete n (suc i) ip p (λ m low high. h m (omega arith) (omega arith)))

address_bit_split :
    (ip : Bytes) (i k : ℕ) → k < 8 → address_bit ip (i * 8 + k) ≡ byte_bit (byte ip i) k
unfolding address_bit
address_bit_split ip i k h = ap₂ (λ a b. byte_bit (byte ip a) b) (omega arith) (omega arith)

suc-ne-zero : (r : ℕ) → (suc r == 0) ≡ false
suc-ne-zero r = ground arith

module _ (ip p : Bytes) (hi : AreBytes ip) (hp : AreBytes p) where
  same_byte : (i : ℕ) → (byte ip i ≡ byte p i) ↔ SameBits 8 (byte ip i) (byte p i)
  same_byte i = bytes_agree_iff (byte ip i) (byte p i) (hi i) (hp i)

  last_bits_match_iff :
      (i r : ℕ) → r < 8 → (last_bits_match i r ip p ≡ true) ↔ SameBits r (byte ip i) (byte p i)
  unfolding last_bits_match
  last_bits_match_iff i zero h = (λ e j hj. absurd (omega arith), λ f. refl)
  last_bits_match_iff i (suc r) h =
      rw (suc-ne-zero r) (masks_agree_iff (suc r) (byte ip i) (byte p i) h (hi i) (hp i))

  ip_prefix_matches_sound : (bits : ℕ) → ip_prefix_matches ip p bits ≡ true → InBlock ip p bits
  unfolding ip_prefix_matches address_bit
  ip_prefix_matches_sound bits h k hk = elim (Bool-cases (k / 8 == bits / 8)) [
    | inl last ↦ rw ((==_iff (k / 8) (bits / 8)).0 last) (
        (last_bits_match_iff (bits / 8) (bits % 8) (omega arith)).0 parts.1 (k % 8)
          (omega (arith, (==_iff (k / 8) (bits / 8)).0 last)))
    | inr before ↦
        ap (λ b. byte_bit b (k % 8))
          (full_bytes_match_sound (bits / 8) 0 ip p parts.0 (k / 8) (omega arith) (ground (arith)))
  ]
    where
      parts :
          (full_bytes_match (bits / 8) 0 ip p ≡ true)
          × (last_bits_match (bits / 8) (bits % 8) ip p ≡ true)
      parts = ground arith

  ip_prefix_matches_complete : (bits : ℕ) → InBlock ip p bits → ip_prefix_matches ip p bits ≡ true
  unfolding ip_prefix_matches
  ip_prefix_matches_complete bits f = rw full last
    where
      same : (m j : ℕ) → j < 8 → m * 8 + j < bits → byte_bit (byte ip m) j ≡ byte_bit (byte p m) j
      same m j hj h =
          sym (address_bit_split ip m j hj) ∙ f (m * 8 + j) h ∙ address_bit_split p m j hj

      full : full_bytes_match (bits / 8) 0 ip p ≡ true
      full =
          full_bytes_match_complete (bits / 8) 0 ip p
            (λ m low high. (same_byte m).1 (λ j hj. same m j hj (omega arith)))

      last : last_bits_match (bits / 8) (bits % 8) ip p ≡ true
      last =
          (last_bits_match_iff (bits / 8) (bits % 8) (omega arith)).1
            (λ j hj. same (bits / 8) j (omega arith) (omega arith))

  -- Over addresses of bytes below 256, curb_ip_prefix_matches says yes exactly when the first
  -- `bits` bits of the two addresses agree.
  pub ip_prefix_matches_iff : (bits : ℕ) → (ip_prefix_matches ip p bits ≡ true) ↔ InBlock ip p bits
  ip_prefix_matches_iff bits = (ip_prefix_matches_sound bits, ip_prefix_matches_complete bits)
