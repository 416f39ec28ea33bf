-- ===== src/Network/Cidr/Strtol.antt =====
-- strtol of the C library in base 10, with a `long` of 64 bits: what curb_parse_cidr_rule of
-- ext/curb_easy.c calls.
use curb.Base.{
  ℕ, ◌+◌, ◌-◌, ◌*◌, ◌/◌, ◌%◌, ◌^◌, ◌<◌, ◌≡◌, refl, Bool, true, false, not, ◌&&◌, ◌||◌, [], ◌∷◌,
  Bytes, ltb, leb, ◌==◌, if◌then◌else◌, arith, holds_below, holds_below-at,
}

pub record Long : Type 0 where
  pub negative : Bool
  pub magnitude : ℕ
  -- what `endptr` points to
  pub end : Bytes
  -- errno is ERANGE
  pub out_of_range : Bool

abbrev pub is_space : ℕ → Bool
is_space c = c == 32 || (leb 9 c && leb c 13)

abbrev pub is_digit : ℕ → Bool
is_digit c = leb b'0' c && leb c b'9'

unfoldable pub skip_space : Bytes → Bytes
skip_space [] = []
skip_space (c ∷ cs) = if is_space c then skip_space cs else c ∷ cs

unfoldable pub scan_digits : ℕ → Bytes → ℕ × Bytes
scan_digits n [] = (n, [])
scan_digits n (c ∷ cs) = elim (is_digit c) [
  | true ↦ scan_digits (n * 10 + (c - b'0')) cs
  | false ↦ (n, c ∷ cs)
]

abbrev pub starts_digit : Bytes → Bool
starts_digit [] = false
starts_digit (c ∷ cs) = is_digit c

-- The greatest magnitude that a `long` of that sign has.
abbrev pub long_limit : Bool → ℕ
long_limit negative = if negative then 2 ^ 63 else 2 ^ 63 - 1

-- With no digit, `endptr` is the start of the text.
unfoldable pub long_of_digits : Bytes → Bool → Bytes → Long
long_of_digits text negative digits =
    if starts_digit digits
    then (let (n, end) = scan_digits 0 digits in
        record {
          negative = negative;
          magnitude = if ltb (long_limit negative) n then long_limit negative else n;
          end = end;
          out_of_range = ltb (long_limit negative) n;
        })
    else record { negative = false; magnitude = 0; end = text; out_of_range = false }

unfoldable pub signed_long : Bytes → Bytes → Long
signed_long text [] = long_of_digits text false []
signed_long text (c ∷ cs) =
    if c == b'-'
    then long_of_digits text true cs
    else if c == b'+'
    then long_of_digits text false cs
    else long_of_digits text false (c ∷ cs)

unfoldable pub strtol : Bytes → Long
strtol text = signed_long text (skip_space text)

abbrev pub is_negative : Long → Bool
is_negative n = n.negative && ltb 0 n.magnitude

abbrev pub is_some_byte : Bytes → Bool
is_some_byte [] = false
is_some_byte (c ∷ cs) = true

-- A number below 1000 in decimal.
unfoldable pub decimal : ℕ → Bytes
decimal n =
    if ltb n 10
    then (b'0' + n) ∷ []
    else if ltb n 100
    then (b'0' + n / 10) ∷ (b'0' + n % 10) ∷ []
    else (b'0' + n / 100) ∷ (b'0' + n / 10 % 10) ∷ (b'0' + n % 10) ∷ []

abbrev pub plain_long : ℕ → Long
plain_long n = record { negative = false; magnitude = n; end = []; out_of_range = false }

reads_back : ℕ → Bool
reads_back n =
    let r = strtol (decimal n) in
    r.magnitude == n && (not r.negative && (not r.out_of_range && not (is_some_byte r.end)))

reads_back_below : holds_below 1000 reads_back ≡ true
unfolding holds_below reads_back strtol signed_long long_of_digits scan_digits skip_space decimal
reads_back_below = refl

long_of_parts :
    (r : Long) (n : ℕ)
    → (r.magnitude == n && (not r.negative && (not r.out_of_range && not (is_some_byte r.end))))
      ≡ true
    → r ≡ plain_long n
long_of_parts r n h = ground arith

pub strtol-decimal : (n : ℕ) → n < 1000 → strtol (decimal n) ≡ plain_long n
unfolding reads_back
strtol-decimal n h = long_of_parts _ n (holds_below-at 1000 reads_back n reads_back_below h)
