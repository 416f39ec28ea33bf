-- ===== src/Network/Cidr/Parse.antt =====
-- What curb_parse_cidr_rule of ext/curb_easy.c accepts, and what it makes of it.
use curb.Base.{
  ℕ, ◌≤◌, ◌<◌, ◌%◌, ◌≡◌, refl, true, false, inl, inr, Option, none, some, [], ◌∷◌, ◌++◌, Bytes, leb,
  ◌==◌, ==_refl, if◌then◌else◌, All, length, length-append, replicate, arith, Option-cases,
}
use curb.Ruby.{arg_error, Result, ok, raise, ◌>>=◌, Result-cases}
use curb.Network.Cidr.Strtol.{strtol, decimal, strtol-decimal, plain_long, is_some_byte}
use curb.Network.Cidr.{
  Family, ipv4, ipv6, CidrRule, split_at, after_bracket, plain_parts, bracketed_parts, cidr_parts,
  prefix_of_long, prefix_length, parse_address, parse_cidr_rule,
}

abbrev pub address_bits : Family → ℕ
address_bits ipv4 = 32
address_bits ipv6 = 128

-- What the policy's matcher relies on.
pub record IsRule (r : CidrRule) : Type 0 where
  pub stored : length r.address ≡ 16
  pub within : r.prefix_bits ≤ address_bits r.family

-- inet_pton gives 4 bytes for AF_INET and 16 for AF_INET6.
pub record IsInetPton (inet_pton : Family → Bytes → Option Bytes) : Type 0 where
  pub four : (text parsed : Bytes) → inet_pton ipv4 text ≡ some parsed → length parsed ≡ 4
  pub sixteen : (text parsed : Bytes) → inet_pton ipv6 text ≡ some parsed → length parsed ≡ 16

prefix_length-ok : (p : Option Bytes) (m n : ℕ) → prefix_length p m ≡ ok n → n ≤ m
unfolding prefix_length prefix_of_long
prefix_length-ok none m n h = ground arith
prefix_length-ok (some []) m n h = cc
prefix_length-ok (some (c ∷ cs)) m n h = ground arith

module _ (inet_pton : Family → Bytes → Option Bytes) (pton : IsInetPton inet_pton) where
  parse_address-ok :
      (text : Bytes) (f : Family) (a : Bytes) (m : ℕ)
      → parse_address inet_pton text ≡ ok (f, a, m)
      → (length a ≡ 16) × (m ≡ address_bits f)
  unfolding parse_address
  parse_address-ok text f a m h = elim (Option-cases (inet_pton ipv4 text)) [
    | inl no4 ↦ elim (Option-cases (inet_pton ipv6 text)) [
      | inl no6 ↦ ground arith
      | inr (p, e) ↦ ground (arith, pton.sixteen text p e)
    ]
    | inr (p, e) ↦ ground (arith, pton.four text p e, length-append p (replicate 12 0))
  ]

  -- Where inet_pton gives addresses of the right length, a rule that is parsed has a prefix
  -- length within its family's addresses and a full address buffer.
  pub parse_cidr_rule-IsRule :
      (cidr : Bytes) (r : CidrRule) → parse_cidr_rule inet_pton cidr ≡ ok r → IsRule r
  unfolding parse_cidr_rule
  parse_cidr_rule-IsRule cidr r h = elim (Result-cases (cidr_parts cidr)) [
    | inr (x, e) ↦ ground arith
    | inl ((text, p), e) ↦ elim (Result-cases (parse_address inet_pton text)) [
      | inr (x, e') ↦ ground arith
      | inl ((f, a, m), e') ↦ elim (Result-cases (prefix_length p m)) [
        | inr (x, e'') ↦ ground arith
        | inl (n, e'') ↦ ground (arith, parse_address-ok text f a m e', prefix_length-ok p m n e'')
      ]
    ]
  ]

-- No byte of the text is `c`.
abbrev pub Free : ℕ → Bytes → Type 0
Free c = All (λ x. (x == c) ≡ false)

split_at-append : (c : ℕ) (xs ys : Bytes) → Free c xs → split_at c (xs ++ c ∷ ys) ≡ some (xs, ys)
unfolding split_at
split_at-append c [] ys h = rw (==_refl c)
split_at-append c (x ∷ xs) ys h = rw (h.0, split_at-append c xs ys h.1)

split_at-none : (c : ℕ) (xs : Bytes) → Free c xs → split_at c xs ≡ none
unfolding split_at
split_at-none c [] h = refl
split_at-none c (x ∷ xs) h = rw (h.0, split_at-none c xs h.1)

-- An address text that does not look like one in brackets.
abbrev pub IsPlain : Bytes → Type 0
IsPlain [] = ⊥
IsPlain (c ∷ cs) = ((c == b'[') ≡ false) × Free b'/' (c ∷ cs)

plain-parts : (text p : Bytes) → IsPlain text → cidr_parts (text ++ b'/' ∷ p) ≡ ok (text, some p)
unfolding cidr_parts plain_parts
plain-parts [] p h = absurd h
plain-parts (c ∷ cs) p h = rw (h.0) (rw (split_at-append b'/' (c ∷ cs) p h.1, plain_parts))

bracketed-parts :
    (text p : Bytes)
    → Free b']' text
    → cidr_parts (b'[' ∷ (text ++ b']' ∷ b'/' ∷ p)) ≡ ok (text, some p)
unfolding cidr_parts bracketed_parts after_bracket
bracketed-parts text p h = rw (split_at-append b']' text (b'/' ∷ p) h, bracketed_parts)

prefix_length-some :
    (p : Bytes) (m : ℕ)
    → is_some_byte p ≡ true
    → prefix_length (some p) m ≡ prefix_of_long (strtol p) m
unfolding prefix_length
prefix_length-some [] m h = cc
prefix_length-some (c ∷ cs) m h = refl

is_some_byte-decimal : (n : ℕ) → is_some_byte (decimal n) ≡ true
unfolding decimal
is_some_byte-decimal n = ground arith

prefix_of_plain :
    (n m : ℕ) → prefix_of_long (plain_long n) m ≡ (if leb n m then ok n else raise arg_error)
unfolding prefix_of_long
prefix_of_plain n m = ground arith

prefix_length-decimal :
    (n m : ℕ)
    → n < 1000
    → prefix_length (some (decimal n)) m ≡ (if leb n m then ok n else raise arg_error)
prefix_length-decimal n m h =
    rw (prefix_length-some (decimal n) m (is_some_byte-decimal n), strtol-decimal n h)
      (prefix_of_plain n m)

-- The rule address/n, where the family has that many bits.
abbrev pub checked_rule : Family → Bytes → ℕ → Result CidrRule
checked_rule family address n =
    if leb n (address_bits family)
    then ok (record { family = family; prefix_bits = n; address = address })
    else raise arg_error

-- inet_pton reads the text as an address of the family: IPv6 only where it is no IPv4 address.
abbrev pub Reads : (Family → Bytes → Option Bytes) → Bytes → Family → Bytes → Type 0
Reads inet_pton text ipv4 parsed = inet_pton ipv4 text ≡ some parsed
Reads inet_pton text ipv6 parsed =
    (inet_pton ipv4 text ≡ none) × (inet_pton ipv6 text ≡ some parsed)

-- The address in a buffer of sixteen bytes.
abbrev pub buffered : Family → Bytes → Bytes
buffered ipv4 parsed = parsed ++ replicate 12 0
buffered ipv6 parsed = parsed

module _ (inet_pton : Family → Bytes → Option Bytes) (text : Bytes) where
  parse_address-Reads :
      (family : Family) (parsed : Bytes)
      → Reads inet_pton text family parsed
      → parse_address inet_pton text ≡ ok (family, buffered family parsed, address_bits family)
  unfolding parse_address
  parse_address-Reads ipv4 parsed four = rw (four, parse_address) refl
  parse_address-Reads ipv6 parsed six = rw (six.0, six.1, parse_address) refl

  module _ (n : ℕ) (family : Family) (parsed : Bytes) (small : n < 1000)
      (reads : Reads inet_pton text family parsed) where
    parse_of_parts :
        (cidr : Bytes)
        → cidr_parts cidr ≡ ok (text, some (decimal n))
        → parse_cidr_rule inet_pton cidr ≡ checked_rule family (buffered family parsed) n
    unfolding parse_cidr_rule
    parse_of_parts cidr e =
        rw
          (
            e,
            parse_address-Reads family parsed reads,
            prefix_length-decimal n (address_bits family) small,
          )
          (within family (buffered family parsed))
      where
        within :
            (f : Family) (address : Bytes)
            → ((if leb n (address_bits f) then ok n else raise arg_error) >>= λ prefix.
                ok (record { family = f; prefix_bits = prefix % 256; address = address }))
              ≡ checked_rule f address n
        within ipv4 address = ground arith
        within ipv6 address = ground arith

    -- For a text that inet_pton reads as an IPv4 address, or else as an IPv6 one, both `text/n` and
    -- `[text]/n` with n below 1000 in decimal give the rule of this address and n if n is at most 32 for
    -- IPv4 and 128 for IPv6, and are refused otherwise. The plain form wants a text that has no `/` and
    -- does not begin with `[`, the other one a text with no `]`.
    pub parse_cidr_rule-print :
        IsPlain text
        → Free b']' text
        → (parse_cidr_rule inet_pton (text ++ b'/' ∷ decimal n)
            ≡ checked_rule family (buffered family parsed) n)
          × (parse_cidr_rule inet_pton (b'[' ∷ (text ++ b']' ∷ b'/' ∷ decimal n))
              ≡ checked_rule family (buffered family parsed) n)
    parse_cidr_rule-print plain free = (
      parse_of_parts _ (plain-parts text (decimal n) plain),
      parse_of_parts _ (bracketed-parts text (decimal n) free),
    )
