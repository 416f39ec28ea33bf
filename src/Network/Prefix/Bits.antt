-- ===== src/Network/Prefix/Bits.antt =====
-- The bits of a byte, most significant first, and what a mask keeps of them.
use curb.Base.{
  ℕ, zero, suc, ◌+◌, ◌-◌, ◌*◌, ◌/◌, ◌%◌, ◌^◌, ◌<◌, ◌≤◌, ◌≡◌, ◌↔◌, refl, bit_and, Bool, true, arith,
  ap, ◌∙◌, sym, ◌==◌, ==_iff, Bool-cases, inl, inr, holds_below, holds_below-at,
}
use curb.Network.Prefix.Masks.{prefix_mask}

-- Bit j of a byte, bit 0 the most significant.
unfoldable pub byte_bit : ℕ → ℕ → ℕ
byte_bit x j = (x / 2 ^ (7 - j)) % 2

-- The number that the first r bits of a byte write.
leading : ℕ → ℕ → ℕ
leading r x = x / 2 ^ (8 - r)

leading-zero : (x : ℕ) → x < 256 → leading 0 x ≡ 0
unfolding leading
leading-zero x h = omega arith

leading-suc : (r x : ℕ) → r < 8 → leading (suc r) x ≡ leading r x * 2 + byte_bit x r
unfolding leading byte_bit
leading-suc zero x h = omega arith
leading-suc (suc zero) x h = omega arith
leading-suc (suc (suc zero)) x h = omega arith
leading-suc (suc (suc (suc zero))) x h = omega arith
leading-suc (suc (suc (suc (suc zero)))) x h = omega arith
leading-suc (suc (suc (suc (suc (suc zero))))) x h = omega arith
leading-suc (suc (suc (suc (suc (suc (suc zero)))))) x h = omega arith
leading-suc (suc (suc (suc (suc (suc (suc (suc zero))))))) x h = omega arith
leading-suc (suc (suc (suc (suc (suc (suc (suc (suc r)))))))) x h = absurd (omega arith)

byte_bit-le : (x r : ℕ) → byte_bit x r ≤ 1
unfolding byte_bit
byte_bit-le x r = omega arith

leading-full : (x : ℕ) → leading 8 x ≡ x
unfolding leading
leading-full x = omega arith

abbrev pub SameBits : ℕ → ℕ → ℕ → Type 0
SameBits r x y = (j : ℕ) → j < r → byte_bit x j ≡ byte_bit y j

leading_of_same :
    (r x y : ℕ) → x < 256 → y < 256 → r ≤ 8 → SameBits r x y → leading r x ≡ leading r y
leading_of_same zero x y hx hy hr h = leading-zero x hx ∙ sym (leading-zero y hy)
leading_of_same (suc r) x y hx hy hr h = omega (
  arith,
  leading-suc r x hr,
  leading-suc r y hr,
  h r (omega arith),
  leading_of_same r x y hx hy (omega arith) (λ j hj. h j (omega arith)),
)

same_of_leading : (r x y : ℕ) → r ≤ 8 → leading r x ≡ leading r y → SameBits r x y
same_of_leading zero x y hr e j hj = absurd (omega arith)
same_of_leading (suc r) x y hr e j hj = elim (Bool-cases (j == r)) [
  | inl last ↦ rw ((==_iff j r).0 last) (parts.1)
  | inr before ↦ same_of_leading r x y (omega arith) (parts.0) j (ground arith)
]
  where
    parts : (leading r x ≡ leading r y) × (byte_bit x r ≡ byte_bit y r)
    parts =
        omega (arith, e, leading-suc r x hr, leading-suc r y hr, byte_bit-le x r, byte_bit-le y r)

mask_table : (r : ℕ) → Bool
mask_table r = holds_below 256 (λ x. bit_and x (prefix_mask r) == leading r x * 2 ^ (8 - r))

-- For x below 256, the mask keeps the first r bits.
bit_and-mask :
    (r x : ℕ)
    → mask_table r ≡ true
    → x < 256
    → bit_and x (prefix_mask r) ≡ leading r x * 2 ^ (8 - r)
unfolding mask_table
bit_and-mask r x t h = (==_iff _ _).0 (holds_below-at 256 _ x t h)

mask_table_lem : (r : ℕ) → r < 8 → mask_table r ≡ true
unfolding mask_table leading holds_below
mask_table_lem zero h = refl
mask_table_lem (suc zero) h = refl
mask_table_lem (suc (suc zero)) h = refl
mask_table_lem (suc (suc (suc zero))) h = refl
mask_table_lem (suc (suc (suc (suc zero)))) h = refl
mask_table_lem (suc (suc (suc (suc (suc zero))))) h = refl
mask_table_lem (suc (suc (suc (suc (suc (suc zero)))))) h = refl
mask_table_lem (suc (suc (suc (suc (suc (suc (suc zero))))))) h = refl
mask_table_lem (suc (suc (suc (suc (suc (suc (suc (suc r)))))))) h = absurd (omega arith)

unscale : (r a b : ℕ) → r < 8 → a * 2 ^ (8 - r) ≡ b * 2 ^ (8 - r) → a ≡ b
unscale zero a b h e = omega arith
unscale (suc zero) a b h e = omega arith
unscale (suc (suc zero)) a b h e = omega arith
unscale (suc (suc (suc zero))) a b h e = omega arith
unscale (suc (suc (suc (suc zero)))) a b h e = omega arith
unscale (suc (suc (suc (suc (suc zero))))) a b h e = omega arith
unscale (suc (suc (suc (suc (suc (suc zero)))))) a b h e = omega arith
unscale (suc (suc (suc (suc (suc (suc (suc zero))))))) a b h e = omega arith
unscale (suc (suc (suc (suc (suc (suc (suc (suc r)))))))) a b h e = absurd (omega arith)

-- Two bytes agree under the mask exactly when their first r bits agree.
pub masks_agree_iff :
    (r x y : ℕ)
    → r < 8
    → x < 256
    → y < 256
    → ((bit_and x (prefix_mask r) == bit_and y (prefix_mask r)) ≡ true) ↔ SameBits r x y
masks_agree_iff r x y hr hx hy = (
  λ e.
      same_of_leading r x y (omega arith)
        (unscale r _ _ hr (sym (masked x hx) ∙ (==_iff _ _).0 e ∙ masked y hy)),
  λ h. (==_iff _ _).1 (
      masked x hx
      ∙ ap (λ (t : ℕ). t * 2 ^ (8 - r)) (leading_of_same r x y hx hy (omega arith) h)
      ∙ sym (masked y hy)),
)
  where
    masked : (z : ℕ) → z < 256 → bit_and z (prefix_mask r) ≡ leading r z * 2 ^ (8 - r)
    masked z = bit_and-mask r z (mask_table_lem r hr)

-- A byte is its eight bits.
pub bytes_agree_iff : (x y : ℕ) → x < 256 → y < 256 → (x ≡ y) ↔ SameBits 8 x y
bytes_agree_iff x y hx hy = (
  λ e j hj. ap (λ z. byte_bit z j) e,
  λ h. sym (leading-full x) ∙ leading_of_same 8 x y hx hy (omega arith) h ∙ leading-full y,
)
