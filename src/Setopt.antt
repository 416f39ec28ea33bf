-- ===== src/Setopt.antt =====
-- ruby_curl_easy_set_opt of ext/curb_easy.c: easy.setopt(option, val), which keeps some options in the
-- easy and writes others straight to libcurl's handle. Every HAVE_ macro counts as defined. The keys
-- unix_socket_path, stderr_io and ftp_create_missing_dirs of the easy's `opts` are left out.
pub mod Values
pub mod Apply
pub mod Policy
pub mod Guarded
use curb.Base.{
  ℕ, Bool, true, false, ◌||◌, not, Option, none, some, List, [], ◌∷◌, Bytes, bytes_eq, codes,
  if◌then◌else◌, ◌==◌,
}
use curb.Base.Int.{ℤ, pos, negsuc}
use curb.Easy.{Easy, Opts, Listing, no_list, listed, single}
use curb.Easy.Body.{as_size}
use curb.PostField.{Forms}
use curb.Request.{Call, Body, set_request_easy, post_body_set_with_mode}
use curb.Ruby.{type_error, Value, nil, qfalse, str, int, object, Result, ok, raise, ◌>>=◌}
use curb.Setup.{Handle}
use curb.Setup.General.{General}
use curb.Setup.Lists.{
  ListOptions, Strings, append_all, listing_texts, clear_resolve_list, clear_connect_to_list,
}
use curb.Setup.Whole.{Options}

-- Options that are kept in the `opts` of the easy as they are.
pub data TextKey : Type 0 where
  key_url key_proxy_url key_interface_hm key_userpwd key_proxypwd : TextKey
  key_noproxy key_cookies key_cookiefile key_cookiejar : TextKey

-- Options that only go to the handle: true and false or an integer, an integer, a text or nil, a text.
pub data RawToggle : Type 0 where
  nosignal path_as_is pipewait dirlistonly append ftp_use_epsv ftp_use_eprt : RawToggle
  ftp_use_pret ftp_create_missing_dirs ftp_skip_pasv_ip ftpsslauth ftp_ssl_ccc : RawToggle

pub data RawLong : Type 0 where
  maxconnects tcp_nodelay resume_from failonerror gssapi_delegation maxfilesize : RawLong
  maxfilesize_large tcp_keepalive tcp_keepidle tcp_keepintvl haproxyprotocol : RawLong
  protocols redir_protocols ssl_sessionid_cache proxy_ssl_verifyhost : RawLong
  doh_ssl_verifypeer doh_ssl_verifyhost doh_ssl_verifystatus : RawLong

pub data RawText : Type 0 where
  request_target ftpport ftp_alternative_to_user ftp_account : RawText
  protocols_str redir_protocols_str : RawText

pub data RawString : Type 0 where
  range ssl_cipher_list : RawString

pub data Curlopt : Type 0 where
  curlopt_verbose curlopt_followlocation curlopt_customrequest curlopt_http_version : Curlopt
  curlopt_header curlopt_noprogress curlopt_httpget curlopt_nobody curlopt_post : Curlopt
  curlopt_postfields curlopt_doh_url curlopt_unix_socket_path curlopt_dns_servers : Curlopt
  curlopt_ftp_response_timeout curlopt_ftp_filemethod curlopt_forbid_reuse : Curlopt
  curlopt_max_send_speed_large curlopt_max_recv_speed_large curlopt_stderr : Curlopt
  curlopt_cookielist curlopt_resolve curlopt_connect_to curlopt_unsupported : Curlopt
  curlopt_key : TextKey → Curlopt
  curlopt_toggle : RawToggle → Curlopt
  curlopt_long : RawLong → Curlopt
  curlopt_text : RawText → Curlopt
  curlopt_string : RawString → Curlopt

-- A write to an option of the handle that nothing else of the easy writes.
pub data Forwarded : Type 0 where
  to_toggle : RawToggle → ℤ → Forwarded
  to_long : RawLong → ℤ → Forwarded
  to_text : RawText → Option Bytes → Forwarded
  to_string : RawString → Bytes → Forwarded
  to_cookielist : Bytes → Forwarded
  to_stderr : ℕ → Forwarded

-- NUM2LONG (and NUM2LL), to_i, StringValueCStr, the FILE of an IO, whether a value is true, the
-- elements if it is an Array, the text that a value kept in `opts` is read as, what post_body= makes of
-- it, and whether curl_slist_append has no memory.
pub record Convert : Type 0 where
  pub num2long : Value → Result ℤ
  pub to_i : Value → Result Value
  pub c_string : Value → Result Bytes
  pub file : Value → Result ℕ
  pub is_true : Value → Bool
  pub elements : Value → Option (List Value)
  pub text : Value → Option Bytes
  pub body : Value → Body
  pub append_fails : List Bytes → Bytes → Bool

-- The easy with the options of a request, those of a setup, and the forwarded ones, the last first.
pub record Target (F : Forms) : Type 0 where
  pub call : Call F
  pub options : Options
  pub forwarded : List Forwarded

abbrev pub is_nil : Value → Bool
is_nil nil = true
is_nil qfalse = false
is_nil (str s) = false
is_nil (int n) = false
is_nil (object o) = false

abbrev pub is_false : Value → Bool
is_false nil = false
is_false qfalse = true
is_false (str s) = false
is_false (int n) = false
is_false (object o) = false

abbrev pub nonzero : ℤ → Bool
nonzero (pos n) = not (n == 0)
nonzero (negsuc n) = true

abbrev pub keep_text : TextKey → Option Bytes → Opts → Opts
keep_text key_url v o = record o { url = v }
keep_text key_proxy_url v o = record o { proxy_url = v }
keep_text key_interface_hm v o = record o { interface_hm = v }
keep_text key_userpwd v o = record o { userpwd = v }
keep_text key_proxypwd v o = record o { proxypwd = v }
keep_text key_noproxy v o = record o { noproxy = v }
keep_text key_cookies v o = record o { cookies = v }
keep_text key_cookiefile v o = record o { cookiefile = v }
keep_text key_cookiejar v o = record o { cookiejar = v }

abbrev pub is_command : Bytes → Bool
is_command s =
    bytes_eq s (codes "ALL")
    || bytes_eq s (codes "SESS")
    || bytes_eq s (codes "FLUSH")
    || bytes_eq s (codes "RELOAD")
