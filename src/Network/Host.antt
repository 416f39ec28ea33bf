-- ===== src/Network/Host.antt =====
-- The host normalisation of ext/curb_easy.c. A range of pointers `start .. end` is the list of the
-- bytes between them, and NULL is `none`.
pub mod Trim
pub mod Shape
pub mod Url
use curb.Base.{
  ℕ, suc, ◌+◌, ◌-◌, ◌≤◌, Bool, true, false, ◌&&◌, ◌||◌, Option, none, some, [], ◌∷◌, map, Bytes,
  leb, ◌==◌, if◌then◌else◌,
}
use curb.Ruby.{arg_error, Result, ok, raise}
use curb.Network.Cidr.{split_at}
use Trim.{is_blank, is_dot, trim_start, trim_end}

unfoldable pub ascii_downcase : ℕ → ℕ
ascii_downcase c = if leb b'A' c && leb c b'Z' then c - b'A' + b'a' else c

-- `if (!raise_errors) return NULL; rb_raise(rb_eArgError, ...)`
abbrev pub reject : Bool → Result (Option Bytes)
reject raise_errors = if raise_errors then raise arg_error else ok none

unfoldable pub lowered : Bytes → Bool → Result (Option Bytes)
lowered [] raise_errors = reject raise_errors
lowered (c ∷ cs) raise_errors = ok (some (map ascii_downcase (c ∷ cs)))

unfoldable pub normalized_host_from_range : Bytes → Bool → Result (Option Bytes)
normalized_host_from_range range raise_errors =
    lowered (trim_end is_dot (trim_end is_blank (trim_start range))) raise_errors

-- The text behind `prefix`, if it begins with it.
unfoldable pub strip_prefix : Bytes → Bytes → Option Bytes
strip_prefix [] text = some text
strip_prefix (p ∷ ps) [] = none
strip_prefix (p ∷ ps) (c ∷ cs) = if p == c then strip_prefix ps cs else none

-- strstr(start, "://"), and the text behind it. The match holds no blank, so it is the same in the
-- text whose end is trimmed.
unfoldable pub find_scheme : Bytes → Option Bytes
find_scheme [] = none
find_scheme (c ∷ cs) = elim (strip_prefix (b':' ∷ b'/' ∷ b'/' ∷ []) (c ∷ cs)) [
  | some rest ↦ some rest
  | none ↦ find_scheme cs
]

unfoldable pub after_scheme : Bytes → Bytes
after_scheme text = elim (find_scheme text) [ some rest ↦ rest | none ↦ text ]

abbrev pub ends_authority : ℕ → Bool
ends_authority c = c == b'/' || (c == b'?' || c == b'#')

-- The bytes before the first one that the test stops at.
unfoldable pub take_until : (ℕ → Bool) → Bytes → Bytes
take_until stops [] = []
take_until stops (c ∷ cs) = if stops c then [] else c ∷ take_until stops cs

-- What stands behind the last `@`.
unfoldable pub find_last_at : Bytes → Option Bytes
find_last_at [] = none
find_last_at (c ∷ cs) = elim (find_last_at cs) [
  | some rest ↦ some rest
  | none ↦ if c == b'@' then some cs else none
]

unfoldable pub after_userinfo : Bytes → Bytes
after_userinfo text = elim (find_last_at text) [ some rest ↦ rest | none ↦ text ]

unfoldable pub colon_count : Bytes → ℕ
colon_count [] = 0
colon_count (c ∷ cs) = if c == b':' then suc (colon_count cs) else colon_count cs

abbrev pub is_colon : ℕ → Bool
is_colon c = c == b':'

unfoldable pub before_port : Bytes → Bytes
before_port authority =
    if leb (colon_count authority) 1 then take_until is_colon authority else authority

unfoldable pub bracketed_host : Bytes → Bool → Result (Option Bytes)
bracketed_host rest raise_errors = elim (split_at b']' rest) [
  | none ↦ reject raise_errors
  | some (inside, after) ↦ normalized_host_from_range inside raise_errors
]

unfoldable pub host_of_authority : Bytes → Bool → Result (Option Bytes)
host_of_authority [] raise_errors = normalized_host_from_range (before_port []) raise_errors
host_of_authority (c ∷ cs) raise_errors =
    if c == b'['
    then bracketed_host cs raise_errors
    else normalized_host_from_range (before_port (c ∷ cs)) raise_errors

-- curb_normalize_host_value_impl, behind its first trim and blank test.
unfoldable pub host_of_text : Bytes → Bool → Result (Option Bytes)
host_of_text [] raise_errors = reject raise_errors
host_of_text (c ∷ cs) raise_errors =
    host_of_authority (after_userinfo (take_until ends_authority (after_scheme (c ∷ cs))))
      raise_errors

unfoldable pub normalize_host_value_impl : Option Bytes → Bool → Result (Option Bytes)
normalize_host_value_impl none raise_errors = reject raise_errors
normalize_host_value_impl (some value) raise_errors =
    host_of_text (trim_end is_blank (trim_start value)) raise_errors

unfoldable pub normalize_host_value : Option Bytes → Result (Option Bytes)
normalize_host_value value = normalize_host_value_impl value true

unfoldable pub try_normalize_host_value : Option Bytes → Result (Option Bytes)
try_normalize_host_value value = normalize_host_value_impl value false
