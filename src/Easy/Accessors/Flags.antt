-- ===== src/Easy/Accessors/Flags.antt =====
-- The attributes of ext/curb_easy.c that are on or off.
use curb.Base.{
  ℕ, ◌==◌, ◌≡◌, refl, ◌<◌, Bool, true, false, not, List, [], ◌∷◌, if◌then◌else◌, arith, inl, inr,
  Bool-cases,
}
use curb.Easy.{Easy}
use curb.Easy.Accessors.{entry, replace, entry-replace}
use curb.Ruby.{Value, nil, qfalse, str, int, object}

-- nil and false are off.
abbrev pub truth : Value → Bool
truth nil = false
truth qfalse = false
truth (str s) = true
truth (int z) = true
truth (object o) = true

-- CURB_BOOLEAN_SETTER
unfoldable pub boolean_set : (Bool → Easy → Easy) → Value → Easy → Easy × Value
boolean_set put v e = (put (truth v) e, v)

unfoldable pub proxy_tunnel_set : Value → Easy → Easy × Value
proxy_tunnel_set = boolean_set λ on e. record e { proxy_tunnel = on }

unfoldable pub proxy_tunnel_q : Easy → Bool
proxy_tunnel_q e = e.proxy_tunnel

unfoldable pub fetch_file_time_set : Value → Easy → Easy × Value
fetch_file_time_set = boolean_set λ on e. record e { fetch_file_time = on }

unfoldable pub fetch_file_time_q : Easy → Bool
fetch_file_time_q e = e.fetch_file_time

unfoldable pub ssl_verify_peer_set : Value → Easy → Easy × Value
ssl_verify_peer_set = boolean_set λ on e. record e { ssl_verify_peer = if on then 1 else 0 }

unfoldable pub ssl_verify_peer_q : Easy → Bool
ssl_verify_peer_q e = not (e.ssl_verify_peer == 0)

unfoldable pub header_in_body_set : Value → Easy → Easy × Value
header_in_body_set = boolean_set λ on e. record e { header_in_body = on }

unfoldable pub header_in_body_q : Easy → Bool
header_in_body_q e = e.header_in_body

unfoldable pub use_netrc_set : Value → Easy → Easy × Value
use_netrc_set = boolean_set λ on e. record e { use_netrc = on }

unfoldable pub use_netrc_q : Easy → Bool
use_netrc_q e = e.use_netrc

unfoldable pub unrestricted_auth_set : Value → Easy → Easy × Value
unrestricted_auth_set = boolean_set λ on e. record e { unrestricted_auth = on }

unfoldable pub unrestricted_auth_q : Easy → Bool
unrestricted_auth_q e = e.unrestricted_auth

unfoldable pub verbose_set : Value → Easy → Easy × Value
verbose_set = boolean_set λ on e. record e { verbose = on }

unfoldable pub verbose_q : Easy → Bool
verbose_q e = e.verbose

unfoldable pub multipart_form_post_set : Value → Easy → Easy × Value
multipart_form_post_set = boolean_set λ on e. record e { multipart_form_post = on }

unfoldable pub multipart_form_post_q : Easy → Bool
multipart_form_post_q e = e.multipart_form_post

unfoldable pub enable_cookies_set : Value → Easy → Easy × Value
enable_cookies_set = boolean_set λ on e. record e { enable_cookies = on }

unfoldable pub enable_cookies_q : Easy → Bool
enable_cookies_q e = e.enable_cookies

unfoldable pub ignore_content_length_set : Value → Easy → Easy × Value
ignore_content_length_set = boolean_set λ on e. record e { ignore_content_length = on }

unfoldable pub ignore_content_length_q : Easy → Bool
ignore_content_length_q e = e.ignore_content_length

unfoldable pub allow_unix_socket_set : Value → Easy → Easy × Value
allow_unix_socket_set = boolean_set λ on e. record e { allow_unix_socket = on }

unfoldable pub allow_proxy_set : Value → Easy → Easy × Value
allow_proxy_set = boolean_set λ on e. record e { allow_proxy = on }

unfoldable pub follow_location_q : Easy → Bool
follow_location_q e = e.follow_location

pub data Flag : Type 0 where
  proxy_tunnel fetch_file_time ssl_verify_peer header_in_body use_netrc unrestricted_auth verbose
        multipart_form_post enable_cookies ignore_content_length allow_unix_socket allow_proxy :
      Flag

abbrev pub flag_set : Flag → Value → Easy → Easy × Value
flag_set proxy_tunnel = proxy_tunnel_set
flag_set fetch_file_time = fetch_file_time_set
flag_set ssl_verify_peer = ssl_verify_peer_set
flag_set header_in_body = header_in_body_set
flag_set use_netrc = use_netrc_set
flag_set unrestricted_auth = unrestricted_auth_set
flag_set verbose = verbose_set
flag_set multipart_form_post = multipart_form_post_set
flag_set enable_cookies = enable_cookies_set
flag_set ignore_content_length = ignore_content_length_set
flag_set allow_unix_socket = allow_unix_socket_set
flag_set allow_proxy = allow_proxy_set

-- The two without a getter are read from the field.
abbrev pub flag_q : Flag → Easy → Bool
flag_q proxy_tunnel e = proxy_tunnel_q e
flag_q fetch_file_time e = fetch_file_time_q e
flag_q ssl_verify_peer e = ssl_verify_peer_q e
flag_q header_in_body e = header_in_body_q e
flag_q use_netrc e = use_netrc_q e
flag_q unrestricted_auth e = unrestricted_auth_q e
flag_q verbose e = verbose_q e
flag_q multipart_form_post e = multipart_form_post_q e
flag_q enable_cookies e = enable_cookies_q e
flag_q ignore_content_length e = ignore_content_length_q e
flag_q allow_unix_socket e = e.allow_unix_socket
flag_q allow_proxy e = e.allow_proxy

abbrev pub flag_index : Flag → ℕ
flag_index proxy_tunnel = 0
flag_index fetch_file_time = 1
flag_index ssl_verify_peer = 2
flag_index header_in_body = 3
flag_index use_netrc = 4
flag_index unrestricted_auth = 5
flag_index verbose = 6
flag_index multipart_form_post = 7
flag_index enable_cookies = 8
flag_index ignore_content_length = 9
flag_index allow_unix_socket = 10
flag_index allow_proxy = 11

abbrev pub flag_table : Easy → List Bool
flag_table e =
    e.proxy_tunnel
    ∷ e.fetch_file_time
    ∷ not (e.ssl_verify_peer == 0)
    ∷ e.header_in_body
    ∷ e.use_netrc
    ∷ e.unrestricted_auth
    ∷ e.verbose
    ∷ e.multipart_form_post
    ∷ e.enable_cookies
    ∷ e.ignore_content_length
    ∷ e.allow_unix_socket
    ∷ e.allow_proxy
    ∷ []

pub flag_q-entry : (f : Flag) (e : Easy) → flag_q f e ≡ entry false (flag_table e) (flag_index f)
unfolding proxy_tunnel_q fetch_file_time_q ssl_verify_peer_q header_in_body_q use_netrc_q
    unrestricted_auth_q verbose_q multipart_form_post_q enable_cookies_q ignore_content_length_q
flag_q-entry proxy_tunnel e = refl
flag_q-entry fetch_file_time e = refl
flag_q-entry ssl_verify_peer e = refl
flag_q-entry header_in_body e = refl
flag_q-entry use_netrc e = refl
flag_q-entry unrestricted_auth e = refl
flag_q-entry verbose e = refl
flag_q-entry multipart_form_post e = refl
flag_q-entry enable_cookies e = refl
flag_q-entry ignore_content_length e = refl
flag_q-entry allow_unix_socket e = refl
flag_q-entry allow_proxy e = refl

flag_set-table :
    (f : Flag) (v : Value) (e : Easy)
    → flag_table (flag_set f v e).0 ≡ replace (flag_table e) (flag_index f) (truth v)
unfolding boolean_set proxy_tunnel_set fetch_file_time_set ssl_verify_peer_set header_in_body_set
    use_netrc_set unrestricted_auth_set verbose_set multipart_form_post_set enable_cookies_set
    ignore_content_length_set allow_unix_socket_set allow_proxy_set
flag_set-table proxy_tunnel v e = refl
flag_set-table fetch_file_time v e = refl
flag_set-table ssl_verify_peer v e = elim (Bool-cases (truth v)) [
  | inl t ↦ rw t refl
  | inr t ↦ rw t refl
]
flag_set-table header_in_body v e = refl
flag_set-table use_netrc v e = refl
flag_set-table unrestricted_auth v e = refl
flag_set-table verbose v e = refl
flag_set-table multipart_form_post v e = refl
flag_set-table enable_cookies v e = refl
flag_set-table ignore_content_length v e = refl
flag_set-table allow_unix_socket v e = refl
flag_set-table allow_proxy v e = refl

flag_index-less : (f : Flag) → flag_index f < 12
flag_index-less proxy_tunnel = omega arith
flag_index-less fetch_file_time = omega arith
flag_index-less ssl_verify_peer = omega arith
flag_index-less header_in_body = omega arith
flag_index-less use_netrc = omega arith
flag_index-less unrestricted_auth = omega arith
flag_index-less verbose = omega arith
flag_index-less multipart_form_post = omega arith
flag_index-less enable_cookies = omega arith
flag_index-less ignore_content_length = omega arith
flag_index-less allow_unix_socket = omega arith
flag_index-less allow_proxy = omega arith

-- A setter changes the flag it is for and no other.
pub flag_q-set :
    (f g : Flag) (v : Value) (e : Easy)
    → flag_q f (flag_set g v e).0 ≡ (if flag_index f == flag_index g then truth v else flag_q f e)
flag_q-set f g v e =
    rw (flag_q-entry f (flag_set g v e).0, flag_q-entry f e, flag_set-table g v e)
      (entry-replace false (flag_table e) (flag_index f) (flag_index g) (truth v)
        (flag_index-less g))
