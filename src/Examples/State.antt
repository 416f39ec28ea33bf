-- ===== src/Examples/State.antt =====
-- States that the examples run on: an easy (ext/curb_easy.h), a multi (ext/curb_multi.h), and stand-ins
-- for the system and for libcurl.
use curb.Base.{ℕ, ◌+◌, false, Option, none, some, [], ◌∷◌, Bytes, codes, bytes_eq, if◌then◌else◌}
use curb.Base.Int.{pos}
use curb.Easy.{no_opts, policy_none, Easy, zero}
use curb.Network.Cidr.{Family, ipv4, ipv6}
use curb.Network.Gate.{Platform, SockAddr}
use curb.Multi.{Multi, mcode_ok, Libcurl, World}

abbrev blank : Easy
blank = record {
  curl = none;
  err_buf = [];
  unsafe_destination_error = [];
  self = none;
  opts = no_opts;
  multi = none;
  callback_error = none;
  local_port = 0;
  local_port_range = 0;
  proxy_port = 0;
  proxy_type = pos 0;
  http_auth_types = pos 0;
  proxy_auth_types = pos 0;
  max_redirs = pos 0;
  timeout = 0;
  timeout_ms = 0;
  connect_timeout = 0;
  connect_timeout_ms = 0;
  dns_cache_timeout = pos 0;
  ftp_response_timeout = 0;
  low_speed_limit = pos 0;
  low_speed_time = pos 0;
  max_send_speed_large = pos 0;
  max_recv_speed_large = pos 0;
  ssl_version = pos 0;
  use_ssl = pos 0;
  ftp_filemethod = pos 0;
  http_version = pos 0;
  resolve_mode = 0;
  network_policy = policy_none;
  proxy_tunnel = false;
  fetch_file_time = false;
  ssl_verify_peer = 0;
  ssl_verify_host = pos 0;
  header_in_body = false;
  use_netrc = false;
  follow_location = false;
  unrestricted_auth = false;
  verbose = false;
  multipart_form_post = false;
  enable_cookies = false;
  cookielist_engine_enabled = false;
  ignore_content_length = false;
  callback_active = false;
  unsafe_destination_blocked = false;
  allow_proxy = false;
  allow_unix_socket = false;
  forbid_reuse_set = false;
  native_active = 0;
  forbid_reuse = pos 0;
  curl_headers = [];
  curl_proxy_headers = [];
  curl_ftp_commands = [];
  curl_resolve = [];
  curl_connect_to = [];
  network_allowed_cidr_rules = [];
  network_allowed_hosts = [];
  multi_attachment_generation = 0;
  downloaded_body_bytes = 0;
  last_result = 0;
}

-- A new easy, as ruby_curl_easy_zero leaves it.
abbrev pub fresh : Easy
fresh = record (zero (pos 0) 0 blank) { curl = some 1; self = some 0 }

-- An inet_pton that reads two addresses.
abbrev pub ten : Bytes
ten = codes "10.0.0.0"

abbrev pub toy_pton : Family → Bytes → Option Bytes
toy_pton ipv4 text = if bytes_eq text ten then some (10 ∷ 0 ∷ 0 ∷ 0 ∷ []) else none
toy_pton ipv6 text =
    if bytes_eq text (codes "::1")
    then some (0 ∷ 0 ∷ 0 ∷ 0 ∷ 0 ∷ 0 ∷ 0 ∷ 0 ∷ 0 ∷ 0 ∷ 0 ∷ 0 ∷ 0 ∷ 0 ∷ 0 ∷ 1 ∷ [])
    else none

abbrev pub platform : Platform
platform = record {
  error_size = 256;
  inet_ntop = λ ip len. none;
  sockaddr_in_size = 16;
  sockaddr_in6_size = 28;
}

abbrev pub seven : SockAddr → Option ℕ
seven address = some 7

-- A libcurl that does what it is asked.
abbrev pub easygoing : Libcurl
easygoing = record {
  State = ℕ;
  multi_init = λ n. (n + 1, some n);
  multi_cleanup = λ n h. n;
  add_handle = λ n m e. (n, mcode_ok);
  remove_handle = λ n m e. (n, mcode_ok);
}

-- A multi that holds the easies 3 and 4.
abbrev pub two_held : Multi
two_held = record {
  active = 2;
  running = 2;
  closed = false;
  perform_active = false;
  callback_active = false;
  allow_close_during_perform = false;
  handle = some 9;
  attached = some (3 ∷ 4 ∷ []);
  requests = 3 ∷ 4 ∷ [];
  deferred_exception = none;
  deferred_source = none;
}

abbrev pub world : World easygoing
world = record { easies = λ i. record fresh { multi = some 0 }; multis = λ i. two_held; lib = 10 }
