-- ===== src/Easy/Accessors/Objects.antt =====
-- The attributes of ext/curb_easy.c that are kept in the opts of an easy: the lists, and what has a
-- getter alone; setopt and the transfer set these.
use curb.Base.{Option, none, some, [], ◌∷◌, Bytes, if◌then◌else◌}
use curb.Base.Int.{ℤ}
use curb.Easy.{Easy, Headers, no_headers, header_hash, header_array, header_string, Listing}
use curb.Easy.Accessors.Texts.{object_hset}

unfoldable pub url_get : Easy → Option Bytes
url_get e = e.opts.url

unfoldable pub proxy_url_get : Easy → Option Bytes
proxy_url_get e = e.opts.proxy_url

unfoldable pub interface_get : Easy → Option Bytes
interface_get e = e.opts.interface_hm

unfoldable pub userpwd_get : Easy → Option Bytes
userpwd_get e = e.opts.userpwd

unfoldable pub proxypwd_get : Easy → Option Bytes
proxypwd_get e = e.opts.proxypwd

unfoldable pub cookies_get : Easy → Option Bytes
cookies_get e = e.opts.cookies

unfoldable pub cookiefile_get : Easy → Option Bytes
cookiefile_get e = e.opts.cookiefile

unfoldable pub cookiejar_get : Easy → Option Bytes
cookiejar_get e = e.opts.cookiejar

unfoldable pub dns_servers_get : Easy → Option Bytes
dns_servers_get e = e.opts.dns_servers

unfoldable pub body_str_get : Easy → Option Bytes
body_str_get e = e.opts.body_data

unfoldable pub header_str_get : Easy → Option Bytes
header_str_get e = e.opts.header_data

unfoldable pub headers_set : Headers → Easy → Easy × Headers
headers_set = object_hset λ v o. record o { headers = v }

unfoldable pub proxy_headers_set : Headers → Easy → Easy × Headers
proxy_headers_set = object_hset λ v o. record o { proxy_headers = v }

unfoldable pub ftp_commands_set : Listing → Easy → Easy × Listing
ftp_commands_set = object_hset λ v o. record o { ftp_commands = v }

unfoldable pub ftp_commands_get : Easy → Listing
ftp_commands_get e = e.opts.ftp_commands

unfoldable pub resolve_set : Listing → Easy → Easy × Listing
resolve_set = object_hset λ v o. record o { resolve = v }

unfoldable pub resolve_get : Easy → Listing
resolve_get e = e.opts.resolve

unfoldable pub connect_to_set : Listing → Easy → Easy × Listing
connect_to_set = object_hset λ v o. record o { connect_to = v }

unfoldable pub connect_to_get : Easy → Listing
connect_to_get e = e.opts.connect_to

-- A new Hash is kept and given where there is nil.
abbrev pub headers_or_hash : Headers → Headers
headers_or_hash no_headers = header_hash []
headers_or_hash (header_hash pairs) = header_hash pairs
headers_or_hash (header_array items) = header_array items
headers_or_hash (header_string text) = header_string text

unfoldable pub headers_get : Easy → Easy × Headers
headers_get e =
    let kept = headers_or_hash e.opts.headers in
    (record e { opts = record (e.opts) { headers = kept } }, kept)

unfoldable pub proxy_headers_get : Easy → Easy × Headers
proxy_headers_get e =
    let kept = headers_or_hash e.opts.proxy_headers in
    (record e { opts = record (e.opts) { proxy_headers = kept } }, kept)

unfoldable pub max_body_bytes_get : Easy → Option ℤ
max_body_bytes_get e = e.opts.max_body_bytes

abbrev pub text_or_nil : Bytes → Option Bytes
text_or_nil [] = none
text_or_nil (b ∷ bytes) = some (b ∷ bytes)

unfoldable pub unsafe_destination_error_get : Easy → Option Bytes
unsafe_destination_error_get e =
    if e.unsafe_destination_blocked then text_or_nil e.unsafe_destination_error else none
