-- ===== src/Network/Prefix/Masks.antt =====
-- The mask of curb_ip_prefix_matches, and the quotient that it stands for.
use curb.Base.{ℕ, ◌-◌, ◌*◌, ◌%◌, ◌^◌}

-- (unsigned char)(0xff << (8 - remaining_bits))
abbrev pub prefix_mask : ℕ → ℕ
prefix_mask remaining_bits = (0xff * 2 ^ (8 - remaining_bits)) % 256
