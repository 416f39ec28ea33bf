-- ===== src/Setup/General.antt =====
-- The middle of ruby_curl_easy_setup_body in ext/curb_easy.c: the fields and texts that are written to
-- options of libcurl's handle. Every HAVE_ macro counts as defined, libcurl as new and not 8.16.0, and no
-- default bundle of certificates was built in. The debug callback is there or not.
use curb.Base.{
  ℕ, Bool, true, false, Option, none, some, [], Bytes, if◌then◌else◌, is_none, is_some, ltb, ◌==◌,
}
use curb.Base.Int.{ℤ, pos, negsuc}
use curb.Easy.{Easy}
use curb.Setup.{disables_proxy}

pub record General : Type 0 where
  pub encoding : Option Bytes
  pub xferinfo_function : Bool
  pub noprogress : Bool
  pub debug_function : Bool
  pub verbose : Bool
  pub header : Bool
  pub followlocation : Bool
  pub maxredirs : ℤ
  pub httpproxytunnel : Bool
  pub filetime : Bool
  pub ssl_verifypeer : ℕ
  pub ssl_verifyhost : ℤ
  -- CURL_NETRC_OPTIONAL, or else CURL_NETRC_IGNORED
  pub netrc_optional : Bool
  pub unrestricted_auth : Bool
  pub timeout_ms : ℕ
  pub connecttimeout : ℕ
  pub connecttimeout_ms : ℕ
  pub dns_cache_timeout : ℤ
  pub ignore_content_length : Bool
  pub ipresolve : ℕ
  pub http_version : ℤ
  pub ftp_response_timeout : ℕ
  pub low_speed_limit : ℤ
  pub low_speed_time : ℤ
  pub max_recv_speed_large : ℤ
  pub max_send_speed_large : ℤ
  pub proxyport : ℕ
  pub localport : ℕ
  pub localportrange : ℕ
  pub proxytype : ℤ
  pub httpauth : ℤ
  pub proxyauth : ℤ
  pub cookiejar : Option Bytes
  pub cookiefile : Option Bytes
  pub cookie : Option Bytes
  pub sslcerttype : Option Bytes
  pub sslcert : Option Bytes
  pub sslcertpasswd : Option Bytes
  pub sslkey : Option Bytes
  pub cainfo : Option Bytes
  pub sslversion : ℤ
  pub use_ssl : ℤ
  pub ftp_filemethod : ℤ
  pub useragent : Option Bytes

-- A text that is nil leaves the option as it is.
abbrev pub text_or : Option Bytes → Option Bytes → Option Bytes
text_or none old = old
text_or (some text) old = some text

abbrev pub port_or : ℕ → ℕ → ℕ
port_or port old = if ltb 0 port then port else old

abbrev pub positive_or : ℤ → ℤ → ℤ
positive_or (pos n) old = if ltb 0 n then pos n else old
positive_or (negsuc n) old = old

abbrev pub nonzero_or : ℤ → ℤ → ℤ
nonzero_or (pos n) old = if n == 0 then old else pos n
nonzero_or (negsuc n) old = negsuc n

unfoldable pub setup_callbacks : Easy → General → General
setup_callbacks e g = record g {
  encoding = text_or e.opts.encoding g.encoding;
  xferinfo_function = if is_some e.opts.progress_proc then true else g.xferinfo_function;
  noprogress = is_none e.opts.progress_proc;
  debug_function = is_some e.opts.debug_proc;
  verbose = if is_some e.opts.debug_proc then true else e.verbose;
}

-- A proxy type of -1 is unset and means CURLPROXY_HTTP, which is 0; -2 is one that libcurl lacks.
abbrev pub proxy_type_or : ℤ → ℤ → ℤ
proxy_type_or (pos n) old = pos n
proxy_type_or (negsuc n) old = if n == 0 then pos 0 else (if n == 1 then old else negsuc n)

unfoldable pub setup_plain : Easy → General → General
setup_plain e g = record g {
  header = e.header_in_body;
  followlocation = e.follow_location;
  maxredirs = e.max_redirs;
  httpproxytunnel = if disables_proxy e then false else e.proxy_tunnel;
  filetime = e.fetch_file_time;
  ssl_verifypeer = e.ssl_verify_peer;
  ssl_verifyhost = e.ssl_verify_host;
  netrc_optional = e.use_netrc;
  unrestricted_auth = e.unrestricted_auth;
  timeout_ms = e.timeout_ms;
  connecttimeout = e.connect_timeout;
  connecttimeout_ms = e.connect_timeout_ms;
  dns_cache_timeout = e.dns_cache_timeout;
  ignore_content_length = e.ignore_content_length;
  ipresolve = e.resolve_mode;
  http_version = e.http_version;
  ftp_response_timeout = e.ftp_response_timeout;
  low_speed_limit = e.low_speed_limit;
  low_speed_time = e.low_speed_time;
  max_recv_speed_large = e.max_recv_speed_large;
  max_send_speed_large = e.max_send_speed_large;
}

unfoldable pub setup_ports : Easy → General → General
setup_ports e g = record g {
  proxyport = port_or e.proxy_port g.proxyport;
  localport = port_or e.local_port g.localport;
  localportrange =
      if ltb 0 e.local_port then port_or e.local_port_range g.localportrange else g.localportrange;
  proxytype = proxy_type_or e.proxy_type g.proxytype;
  httpauth = nonzero_or e.http_auth_types g.httpauth;
  proxyauth = nonzero_or e.proxy_auth_types g.proxyauth;
}

-- Cookies that are enabled without a file get the empty name.
unfoldable pub setup_cookies : Easy → General → General
setup_cookies e g = record g {
  cookiejar = if e.enable_cookies then text_or e.opts.cookiejar g.cookiejar else g.cookiejar;
  cookiefile =
      if e.enable_cookies
      then text_or e.opts.cookiefile (some [])
      else (if e.cookielist_engine_enabled then some [] else g.cookiefile);
  cookie = text_or e.opts.cookies g.cookie;
}

-- The type, password and key of a certificate are written only with the certificate.
abbrev pub with_cert : Easy → Option Bytes → Option Bytes → Option Bytes
with_cert e text old = if is_some e.opts.cert then text_or text old else old

unfoldable pub setup_tls : Easy → General → General
setup_tls e g = record g {
  sslcerttype = with_cert e e.opts.certtype g.sslcerttype;
  sslcert = text_or e.opts.cert g.sslcert;
  sslcertpasswd = with_cert e e.opts.certpassword g.sslcertpasswd;
  sslkey = with_cert e e.opts.cert_key g.sslkey;
  cainfo = text_or e.opts.cacert g.cainfo;
  sslversion = positive_or e.ssl_version g.sslversion;
  use_ssl = positive_or e.use_ssl g.use_ssl;
  ftp_filemethod = positive_or e.ftp_filemethod g.ftp_filemethod;
  useragent = text_or e.opts.useragent g.useragent;
}

unfoldable pub setup_general : Easy → General → General
setup_general e g =
    setup_tls e (setup_cookies e (setup_ports e (setup_plain e (setup_callbacks e g))))
