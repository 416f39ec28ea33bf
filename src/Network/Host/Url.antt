-- ===== src/Network/Host/Url.antt =====
-- A URL in its parts, and its text: what curb_normalize_host_value of ext/curb_easy.c takes
-- apart.
pub mod Parts
pub mod Round
use curb.Base.{
  ◌≢◌, sym, ◌∙◌, append_assoc, append-nil, ℕ, zero, suc, ◌≡◌, refl, Bool, true, false, not, ◌||◌,
  ◌&&◌, Option, none, some, [], ◌∷◌, ◌++◌, map, Bytes, leb, ◌==◌, ==_refl, if◌then◌else◌, All,
  All-imp, All-append, arith, ap,
}
use curb.Ruby.{Result, ok}
use curb.Network.Host.Trim.{
  is_blank, is_dot, trim_start, trim_end, Closed, Opened, trim_end-id, trim_start-id,
  trim_end-append_Closed, Closed-append, Closed-of_All,
}
use curb.Network.Host.{
  ascii_downcase, lowered, normalized_host_from_range, before_port, is_colon, colon_count,
  host_of_authority, strip_prefix, find_scheme, after_scheme, find_last_at, after_userinfo,
  take_until, ends_authority, host_of_text, normalize_host_value_impl, try_normalize_host_value,
}

-- A byte of a host name: none that ends the authority, opens a user, a port or a bracket, no blank.
abbrev pub host_byte : ℕ → Bool
host_byte c = not (ends_authority c || (c == b'@' || (c == b':' || (c == b'[' || is_blank c))))

abbrev pub digit_byte : ℕ → Bool
digit_byte c = leb b'0' c && leb c b'9'

-- A URL in its parts. The host is written `first ∷ rest`, since it is not empty.
pub record Url : Type 0 where
  pub scheme_first : ℕ
  pub scheme_rest : Bytes
  pub userinfo : Option Bytes
  pub host_first : ℕ
  pub host_rest : Bytes
  pub port : Option Bytes
  pub tail : Bytes

abbrev pub url_host : Url → Bytes
url_host u = u.host_first ∷ u.host_rest

abbrev pub port_text : Option Bytes → Bytes
port_text none = []
port_text (some p) = b':' ∷ p

abbrev pub user_text : Option Bytes → Bytes → Bytes
user_text none rest = rest
user_text (some u) rest = u ++ b'@' ∷ rest

abbrev pub authority_text : Url → Bytes
authority_text u = user_text u.userinfo (url_host u ++ port_text u.port)

abbrev pub url_text : Url → Bytes
url_text u = u.scheme_first ∷ (u.scheme_rest ++ b':' ∷ b'/' ∷ b'/' ∷ (authority_text u ++ u.tail))

abbrev pub OnOption : (Bytes → Type 0) → Option Bytes → Type 0
OnOption P none = Unit {0}
OnOption P (some x) = P x

-- Nothing, or a path, a query or a fragment, with any bytes in it.
abbrev pub IsTail : Bytes → Type 0
IsTail [] = Unit {0}
IsTail (c ∷ cs) = ends_authority c ≡ true

pub record IsUrl (u : Url) : Type 0 where
  pub scheme_opened : is_blank u.scheme_first ≡ false
  pub scheme_plain : All (λ c. is_colon c ≡ false) (u.scheme_first ∷ u.scheme_rest)
  pub user_plain : OnOption (All (λ c. ends_authority c ≡ false)) u.userinfo
  pub host_plain : All (λ c. host_byte c ≡ true) (url_host u)
  pub host_closed : Closed is_dot (url_host u)
  pub port_digits : OnOption (All (λ c. digit_byte c ≡ true)) u.port
  pub tail_opened : IsTail u.tail
