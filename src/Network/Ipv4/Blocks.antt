-- ===== src/Network/Ipv4/Blocks.antt =====
-- The IPv4 test against a table of address blocks, each read as `address/bits`.
use curb.Base.{
  ℕ, ◌<◌, ◌≡◌, refl, bit_and, Bool, true, false, ◌&&◌, ◌||◌, List, [], ◌∷◌, leb, arith, Bytes, ◌==◌,
  any, holds_below, holds_below-at, if◌then◌else◌,
}
use curb.Network.Prefix.{ip_prefix_matches, full_bytes_match, last_bits_match}
use curb.Network.Ipv4.{ipv4_is_unsafe_destination}

pub record Block : Type 0 where
  pub address : Bytes
  pub bits : ℕ

abbrev pub block4 : (a b c d bits : ℕ) → Block
block4 a b c d bits = record { address = a ∷ b ∷ c ∷ d ∷ []; bits = bits }

abbrev pub in_block : Bytes → Block → Bool
in_block ip b = ip_prefix_matches ip b.address b.bits

-- The blocks that are not public unicast space.
abbrev pub ipv4_blocks : List Block
ipv4_blocks =
    block4 0 0 0 0 8
    ∷ block4 10 0 0 0 8
    ∷ block4 100 64 0 0 10
    ∷ block4 100 100 100 200 32
    ∷ block4 127 0 0 0 8
    ∷ block4 169 254 0 0 16
    ∷ block4 172 16 0 0 12
    ∷ block4 192 168 0 0 16
    ∷ block4 192 0 0 0 24
    ∷ block4 192 0 2 0 24
    ∷ block4 198 18 0 0 15
    ∷ block4 198 51 100 0 24
    ∷ block4 203 0 113 0 24
    ∷ block4 224 0 0 0 3
    ∷ []

-- One byte tested in two ways, on all its values.
abbrev same_test : (p q : ℕ → Bool) → ℕ → Bool
same_test p q x = if p x then q x else if q x then false else true

same_test_sound :
    (p q : ℕ → Bool) (x : ℕ) → holds_below 256 (same_test p q) ≡ true → x < 256 → p x ≡ q x
same_test_sound p q x h lt = ground (arith, holds_below-at 256 (same_test p q) x h lt)

second_172 : (x : ℕ) → x < 256 → (leb 16 x && leb x 31) ≡ (bit_and x 240 == 16)
unfolding holds_below
second_172 x = same_test_sound (λ x. leb 16 x && leb x 31) (λ x. bit_and x 240 == 16) x refl

second_198 : (x : ℕ) → x < 256 → (x == 18 || x == 19) ≡ (bit_and x 254 == 18)
unfolding holds_below
second_198 x = same_test_sound (λ x. x == 18 || x == 19) (λ x. bit_and x 254 == 18) x refl

first_224 : (x : ℕ) → x < 256 → leb 224 x ≡ (bit_and x 224 == 224)
unfolding holds_below
first_224 x = same_test_sound (λ x. leb 224 x) (λ x. bit_and x 224 == 224) x refl

-- A test of a prefix, as a conjunction.
pub if_true : (a b : Bool) → (if a then b else false) ≡ (a && b)
if_true a b = ground arith

pub and_true : (a : Bool) → (a && true) ≡ a
and_true a = ground arith

-- For an address of bytes, the source's chain of tests holds exactly when some block
-- of the table holds the address.
pub ipv4_unsafe-blocks :
    (a b c d : ℕ)
    → a < 256
    → b < 256
    → let ip = a ∷ b ∷ c ∷ d ∷ [] in ipv4_is_unsafe_destination ip ≡ any (in_block ip) ipv4_blocks
unfolding ipv4_is_unsafe_destination ip_prefix_matches full_bytes_match last_bits_match
ipv4_unsafe-blocks a b c d ha hb =
    rw (second_172 b hb, second_198 b hb, first_224 a ha) (simp (if_true, and_true))
