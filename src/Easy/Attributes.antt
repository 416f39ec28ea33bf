-- ===== src/Easy/Attributes.antt =====
-- Attributes of an easy that are numbers: the macros of ext/curb_macros.h and the setters and getters of
-- ext/curb_easy.c made of them, for nil and Integers. NUM2INT and NUM2LONG raise out of range, and a
-- long that is kept in an unsigned long, an int or a char wraps.
pub mod Mask
pub mod Ports
pub mod Auth
pub mod Timeout
use curb.Base.{
  ℕ, ◌+◌, ◌-◌, ◌%◌, ◌^◌, Bool, true, false, ◌&&◌, not, Option, none, some, Bytes, codes, bytes_eq,
  bit_and, if◌then◌else◌, ◌==◌, ltb,
}
use curb.Base.Int.{ℤ, pos, negsuc}
use curb.Easy.{Easy, NetworkPolicy, policy_none, policy_public}
use curb.Easy.Body.{num2long, as_size}
use curb.Ruby.{Exn, arg_error, type_error, range_error, Result, ok, raise, ◌>>=◌}

-- A 32-bit int
abbrev pub num2int : ℤ → Result ℤ
num2int (pos n) = if ltb n (2 ^ 31) then ok (pos n) else raise range_error
num2int (negsuc n) = if ltb n (2 ^ 31) then ok (negsuc n) else raise range_error

-- A masked negative number is none.
abbrev pub checked_port : ℤ → Result ℕ
checked_port (pos n) = if not (n == 0) && (bit_and n 65535 == n) then ok n else raise arg_error
checked_port (negsuc n) = raise arg_error

-- CURB_IMMED_PORT_SETTER and CURB_IMMED_PORT_GETTER
unfoldable pub port_set : (ℕ → Easy → Easy) → Option ℤ → Easy → Easy × Result (Option ℤ)
port_set put none e = (put 0 e, ok none)
port_set put (some z) e = elim (num2int z >>= checked_port) [
  | raise x ↦ (e, raise x)
  | ok port ↦ (put port e, ok (some z))
]

unfoldable pub port_get : ℕ → Option ℤ
port_get port = if port == 0 then none else some (pos port)

unfoldable pub local_port_set : Option ℤ → Easy → Easy × Result (Option ℤ)
local_port_set = port_set λ port e. record e { local_port = port }

unfoldable pub local_port_get : Easy → Option ℤ
local_port_get e = port_get e.local_port

unfoldable pub local_port_range_set : Option ℤ → Easy → Easy × Result (Option ℤ)
local_port_range_set = port_set λ port e. record e { local_port_range = port }

unfoldable pub local_port_range_get : Easy → Option ℤ
local_port_range_get e = port_get e.local_port_range

unfoldable pub proxy_port_set : Option ℤ → Easy → Easy × Result (Option ℤ)
proxy_port_set = port_set λ port e. record e { proxy_port = port }

unfoldable pub proxy_port_get : Easy → Option ℤ
proxy_port_get e = port_get e.proxy_port

abbrev pub same_integer : ℤ → ℤ → Bool
same_integer (pos m) (pos n) = m == n
same_integer (pos m) (negsuc n) = false
same_integer (negsuc m) (pos n) = false
same_integer (negsuc m) (negsuc n) = m == n

-- CURB_IMMED_SETTER and CURB_IMMED_GETTER; `put` keeps the long.
unfoldable pub immed_set :
    (ℤ → Easy → Easy) → (nilval : ℤ) → Option ℤ → Easy → Easy × Result (Option ℤ)
immed_set put nilval none e = (put nilval e, ok none)
immed_set put nilval (some z) e = elim (num2long z) [
  | raise x ↦ (e, raise x)
  | ok n ↦ (put n e, ok (some z))
]

unfoldable pub immed_get : (nilval : ℤ) → ℤ → Option ℤ
immed_get nilval z = if same_integer z nilval then none else some z

-- An unsigned long read as a long.
abbrev pub as_long : ℕ → ℤ
as_long n = if ltb n (2 ^ 63) then pos n else negsuc (2 ^ 64 - 1 - n)

-- A long kept in a signed char.
abbrev pub low_byte : ℤ → ℕ
low_byte (pos n) = n % 256
low_byte (negsuc n) = 255 - n % 256

abbrev pub as_char : ℤ → ℤ
as_char z = if ltb (low_byte z) 128 then pos (low_byte z) else negsuc (255 - low_byte z)

-- A long kept in a 32-bit int.
abbrev pub low_word : ℤ → ℕ
low_word (pos n) = n % 2 ^ 32
low_word (negsuc n) = 2 ^ 32 - 1 - n % 2 ^ 32

abbrev pub as_int : ℤ → ℤ
as_int z = if ltb (low_word z) (2 ^ 31) then pos (low_word z) else negsuc (2 ^ 32 - 1 - low_word z)

unfoldable pub proxy_type_set : Option ℤ → Easy → Easy × Result (Option ℤ)
proxy_type_set = immed_set (λ n e. record e { proxy_type = as_int n }) (negsuc 0)

unfoldable pub proxy_type_get : Easy → Option ℤ
proxy_type_get e = immed_get (negsuc 0) e.proxy_type

unfoldable pub proxy_auth_types_set : Option ℤ → Easy → Easy × Result (Option ℤ)
proxy_auth_types_set = immed_set (λ n e. record e { proxy_auth_types = n }) (pos 0)

unfoldable pub proxy_auth_types_get : Easy → Option ℤ
proxy_auth_types_get e = immed_get (pos 0) e.proxy_auth_types

unfoldable pub max_redirects_set : Option ℤ → Easy → Easy × Result (Option ℤ)
max_redirects_set = immed_set (λ n e. record e { max_redirs = n }) (negsuc 0)

unfoldable pub max_redirects_get : Easy → Option ℤ
max_redirects_get e = immed_get (negsuc 0) e.max_redirs

unfoldable pub dns_cache_timeout_set : Option ℤ → Easy → Easy × Result (Option ℤ)
dns_cache_timeout_set = immed_set (λ n e. record e { dns_cache_timeout = n }) (negsuc 0)

unfoldable pub dns_cache_timeout_get : Easy → Option ℤ
dns_cache_timeout_get e = immed_get (negsuc 0) e.dns_cache_timeout

unfoldable pub low_speed_limit_set : Option ℤ → Easy → Easy × Result (Option ℤ)
low_speed_limit_set = immed_set (λ n e. record e { low_speed_limit = n }) (pos 0)

unfoldable pub low_speed_limit_get : Easy → Option ℤ
low_speed_limit_get e = immed_get (pos 0) e.low_speed_limit

unfoldable pub low_speed_time_set : Option ℤ → Easy → Easy × Result (Option ℤ)
low_speed_time_set = immed_set (λ n e. record e { low_speed_time = n }) (pos 0)

unfoldable pub low_speed_time_get : Easy → Option ℤ
low_speed_time_get e = immed_get (pos 0) e.low_speed_time

unfoldable pub max_send_speed_large_set : Option ℤ → Easy → Easy × Result (Option ℤ)
max_send_speed_large_set = immed_set (λ n e. record e { max_send_speed_large = n }) (pos 0)

unfoldable pub max_send_speed_large_get : Easy → Option ℤ
max_send_speed_large_get e = immed_get (pos 0) e.max_send_speed_large

unfoldable pub max_recv_speed_large_set : Option ℤ → Easy → Easy × Result (Option ℤ)
max_recv_speed_large_set = immed_set (λ n e. record e { max_recv_speed_large = n }) (pos 0)

unfoldable pub max_recv_speed_large_get : Easy → Option ℤ
max_recv_speed_large_get e = immed_get (pos 0) e.max_recv_speed_large

unfoldable pub ssl_version_set : Option ℤ → Easy → Easy × Result (Option ℤ)
ssl_version_set = immed_set (λ n e. record e { ssl_version = n }) (negsuc 0)

unfoldable pub ssl_version_get : Easy → Option ℤ
ssl_version_get e = immed_get (negsuc 0) e.ssl_version

unfoldable pub use_ssl_set : Option ℤ → Easy → Easy × Result (Option ℤ)
use_ssl_set = immed_set (λ n e. record e { use_ssl = n }) (negsuc 0)

unfoldable pub use_ssl_get : Easy → Option ℤ
use_ssl_get e = immed_get (negsuc 0) e.use_ssl

unfoldable pub ftp_filemethod_set : Option ℤ → Easy → Easy × Result (Option ℤ)
ftp_filemethod_set = immed_set (λ n e. record e { ftp_filemethod = n }) (negsuc 0)

unfoldable pub ftp_filemethod_get : Easy → Option ℤ
ftp_filemethod_get e = immed_get (negsuc 0) e.ftp_filemethod

unfoldable pub connect_timeout_set : Option ℤ → Easy → Easy × Result (Option ℤ)
connect_timeout_set = immed_set (λ n e. record e { connect_timeout = as_size n }) (pos 0)

unfoldable pub connect_timeout_get : Easy → Option ℤ
connect_timeout_get e = immed_get (pos 0) (as_long e.connect_timeout)

unfoldable pub connect_timeout_ms_set : Option ℤ → Easy → Easy × Result (Option ℤ)
connect_timeout_ms_set = immed_set (λ n e. record e { connect_timeout_ms = as_size n }) (pos 0)

unfoldable pub connect_timeout_ms_get : Easy → Option ℤ
connect_timeout_ms_get e = immed_get (pos 0) (as_long e.connect_timeout_ms)

unfoldable pub ftp_response_timeout_set : Option ℤ → Easy → Easy × Result (Option ℤ)
ftp_response_timeout_set = immed_set (λ n e. record e { ftp_response_timeout = as_size n }) (pos 0)

unfoldable pub ftp_response_timeout_get : Easy → Option ℤ
ftp_response_timeout_get e = immed_get (pos 0) (as_long e.ftp_response_timeout)

unfoldable pub ssl_verify_host_set : Option ℤ → Easy → Easy × Result (Option ℤ)
ssl_verify_host_set = immed_set (λ n e. record e { ssl_verify_host = as_char n }) (pos 0)

unfoldable pub ssl_verify_host_get : Easy → Option ℤ
ssl_verify_host_get e = immed_get (pos 0) e.ssl_verify_host

-- The argument is libcurl's CURL_HTTP_VERSION_NONE; the getter never gives nil.
unfoldable pub http_version_set : ℤ → Option ℤ → Easy → Easy × Result (Option ℤ)
http_version_set http_version_none =
    immed_set (λ n e. record e { http_version = n }) http_version_none

unfoldable pub http_version_get : Easy → ℤ
http_version_get e = e.http_version
