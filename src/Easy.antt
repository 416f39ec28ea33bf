-- ===== src/Easy.antt =====
-- The state of a Curl::Easy: ruby_curl_easy of ext/curb_easy.h, with its `opts` hash (Easy.Options)
-- passed on. Ruby objects and libcurl handles are numbers; a missing entry, Qnil and
-- NULL are `none`. ruby_curl_easy_zero gives every field its first value.
pub mod Options
pub mod Callbacks
pub mod Attributes
pub mod Symbols
pub mod Accessors
pub mod Body
pub mod Stream
pub mod Lifecycle
use curb.Base.{ℕ, Bool, true, false, Option, none, List, [], Bytes}
use curb.Base.Int.{ℤ, pos, negsuc}
use curb.Ruby.{Exn}
use curb.Network.Cidr.{CidrRule}
pub use Options.*

-- CURB_NETWORK_POLICY_NONE and CURB_NETWORK_POLICY_PUBLIC
pub data NetworkPolicy : Type 0 where
  policy_none policy_public : NetworkPolicy

pub record Easy : Type 0 where
  pub curl : Option ℕ
  pub err_buf : Bytes
  pub unsafe_destination_error : Bytes
  pub self : Option ℕ
  pub opts : Opts
  pub multi : Option ℕ
  pub callback_error : Option Exn
  pub local_port : ℕ
  pub local_port_range : ℕ
  pub proxy_port : ℕ
  pub proxy_type : ℤ
  pub http_auth_types : ℤ
  pub proxy_auth_types : ℤ
  pub max_redirs : ℤ
  pub timeout : ℕ
  pub timeout_ms : ℕ
  pub connect_timeout : ℕ
  pub connect_timeout_ms : ℕ
  pub dns_cache_timeout : ℤ
  pub ftp_response_timeout : ℕ
  pub low_speed_limit : ℤ
  pub low_speed_time : ℤ
  pub max_send_speed_large : ℤ
  pub max_recv_speed_large : ℤ
  pub ssl_version : ℤ
  pub use_ssl : ℤ
  pub ftp_filemethod : ℤ
  pub http_version : ℤ
  pub resolve_mode : ℕ
  pub network_policy : NetworkPolicy
  pub proxy_tunnel : Bool
  pub fetch_file_time : Bool
  pub ssl_verify_peer : ℕ
  pub ssl_verify_host : ℤ
  pub header_in_body : Bool
  pub use_netrc : Bool
  pub follow_location : Bool
  pub unrestricted_auth : Bool
  pub verbose : Bool
  pub multipart_form_post : Bool
  pub enable_cookies : Bool
  pub cookielist_engine_enabled : Bool
  pub ignore_content_length : Bool
  pub callback_active : Bool
  pub unsafe_destination_blocked : Bool
  pub allow_proxy : Bool
  pub allow_unix_socket : Bool
  pub forbid_reuse_set : Bool
  pub native_active : ℕ
  pub forbid_reuse : ℤ
  pub curl_headers : List Bytes
  pub curl_proxy_headers : List Bytes
  pub curl_ftp_commands : List Bytes
  pub curl_resolve : List Bytes
  pub curl_connect_to : List Bytes
  -- with their counts, which are the lengths; NULL is the empty list
  pub network_allowed_cidr_rules : List CidrRule
  pub network_allowed_hosts : List Bytes
  pub multi_attachment_generation : ℕ
  pub downloaded_body_bytes : ℕ
  pub last_result : ℕ

-- ruby_curl_easy_zero: it leaves `curl`, `multi`, the attachment generation and the downloaded
-- bytes as they are. The arguments are libcurl's CURL_HTTP_VERSION_NONE and
-- CURL_IPRESOLVE_WHATEVER.
unfoldable pub zero : ℤ → ℕ → Easy → Easy
zero http_version_none ipresolve_whatever e = record e {
  err_buf = [];
  unsafe_destination_error = [];
  self = none;
  opts = no_opts;
  callback_error = none;
  local_port = 0;
  local_port_range = 0;
  proxy_port = 0;
  proxy_type = negsuc 0;
  http_auth_types = pos 0;
  proxy_auth_types = pos 0;
  max_redirs = negsuc 0;
  timeout = 0;
  timeout_ms = 0;
  connect_timeout = 0;
  connect_timeout_ms = 0;
  dns_cache_timeout = pos 60;
  ftp_response_timeout = 0;
  low_speed_limit = pos 0;
  low_speed_time = pos 0;
  max_send_speed_large = pos 0;
  max_recv_speed_large = pos 0;
  ssl_version = negsuc 0;
  use_ssl = negsuc 0;
  ftp_filemethod = negsuc 0;
  http_version = http_version_none;
  resolve_mode = ipresolve_whatever;
  network_policy = policy_none;
  proxy_tunnel = false;
  fetch_file_time = false;
  ssl_verify_peer = 1;
  ssl_verify_host = pos 2;
  header_in_body = false;
  use_netrc = false;
  follow_location = false;
  unrestricted_auth = false;
  verbose = false;
  multipart_form_post = false;
  enable_cookies = false;
  cookielist_engine_enabled = false;
  ignore_content_length = false;
  callback_active = false;
  unsafe_destination_blocked = false;
  allow_proxy = false;
  allow_unix_socket = false;
  forbid_reuse_set = false;
  native_active = 0;
  forbid_reuse = pos 0;
  curl_headers = [];
  curl_proxy_headers = [];
  curl_ftp_commands = [];
  curl_resolve = [];
  curl_connect_to = [];
  network_allowed_cidr_rules = [];
  network_allowed_hosts = [];
  last_result = 0;
}
