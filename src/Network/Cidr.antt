-- ===== src/Network/Cidr.antt =====
-- curb_parse_cidr_rule of ext/curb_easy.c. A C string is the list of its bytes before the NUL.
-- `inet_pton` is the system's: a parameter that gives the bytes of an address, or nothing.
pub mod Strtol
pub mod Parse
use curb.Base.{
  ℕ, ◌+◌, ◌%◌, ◌≡◌, Bool, true, false, ◌||◌, Option, none, some, List, [], ◌∷◌, ◌++◌, Bytes, ltb,
  ◌==◌, if◌then◌else◌, replicate,
}
use curb.Ruby.{Exn, arg_error, Result, ok, raise, ◌>>=◌}
use Strtol.{Long, is_negative, is_some_byte, strtol}

-- CURB_CIDR_FAMILY_IPV4 and CURB_CIDR_FAMILY_IPV6
pub data Family : Type 0 where
  ipv4 ipv6 : Family

-- curb_cidr_rule
pub record CidrRule : Type 0 where
  pub family : Family
  pub prefix_bits : ℕ
  pub address : Bytes

-- strchr: what stands before the first `c`, and what behind it.
unfoldable pub split_at : ℕ → Bytes → Option (Bytes × Bytes)
split_at c [] = none
split_at c (x ∷ xs) =
    if x == c
    then some ([], xs)
    else elim (split_at c xs) [ none ↦ none | some (before, after) ↦ some (x ∷ before, after) ]

-- What may follow the `]` of an address in brackets.
unfoldable pub after_bracket : Bytes → Bytes → Result (Bytes × Option Bytes)
after_bracket address [] = ok (address, none)
after_bracket address (c ∷ rest) = if c == b'/' then ok (address, some rest) else raise arg_error

unfoldable pub plain_parts : Bytes → Result (Bytes × Option Bytes)
plain_parts text = elim (split_at b'/' text) [
  | none ↦ ok (text, none)
  | some (address, prefix) ↦ ok (address, some prefix)
]

unfoldable pub bracketed_parts : Bytes → Result (Bytes × Option Bytes)
bracketed_parts rest = elim (split_at b']' rest) [
  | none ↦ raise arg_error
  | some (address, after) ↦ after_bracket address after
]

-- The address and the prefix length (`prefix_str`) as they stand in the text.
unfoldable pub cidr_parts : Bytes → Result (Bytes × Option Bytes)
cidr_parts [] = raise arg_error
cidr_parts (c ∷ rest) = if c == b'[' then bracketed_parts rest else plain_parts (c ∷ rest)

-- The test behind strtol.
unfoldable pub prefix_of_long : Long → ℕ → Result ℕ
prefix_of_long n max_prefix =
    if n.out_of_range || (is_some_byte n.end || (is_negative n || ltb max_prefix n.magnitude))
    then raise arg_error
    else ok n.magnitude

unfoldable pub prefix_length : Option Bytes → ℕ → Result ℕ
prefix_length none max_prefix = ok max_prefix
prefix_length (some []) max_prefix = raise arg_error
prefix_length (some (c ∷ cs)) max_prefix = prefix_of_long (strtol (c ∷ cs)) max_prefix

module _ (inet_pton : Family → Bytes → Option Bytes) where
  -- AF_INET is tried first. memset and memcpy leave the unused bytes of the address zero.
  unfoldable pub parse_address : Bytes → Result (Family × Bytes × ℕ)
  parse_address text = elim (inet_pton ipv4 text) [
    | some parsed ↦ ok (ipv4, parsed ++ replicate 12 0, 32)
    | none ↦ elim (inet_pton ipv6 text) [
      | some parsed ↦ ok (ipv6, parsed, 128)
      | none ↦ raise arg_error
    ]
  ]

  unfoldable pub parse_cidr_rule : Bytes → Result CidrRule
  parse_cidr_rule cidr = do
    (text, prefix_str) ← cidr_parts cidr
    (family, address, max_prefix) ← parse_address text
    prefix ← prefix_length prefix_str max_prefix
    ok (record { family = family; prefix_bits = prefix % 256; address = address })
