-- ===== src/Easy/Options.antt =====
-- The `opts` hash of a Curl::Easy: the entries that the C code of ext/curb_easy.c and ext/curb_multi.c
-- reads, and ruby_curl_upload of ext/curb_upload.h. A missing entry and Qnil are `none`.
use curb.Base.{ℕ, Option, none, List, Bytes}
use curb.Base.Int.{ℤ}
use curb.Ruby.{Value}

-- ruby_curl_upload of ext/curb_upload.h: only the hash of one easy refers to it.
pub record Upload : Type 0 where
  pub stream : Value
  pub offset : ℕ

-- The headers to send, by the kind of object that holds them: a Hash with its pairs in order, an Array
-- or a String.
pub data Headers : Type 0 where
  no_headers : Headers
  header_hash : List (Bytes × Value) → Headers
  header_array : List Value → Headers
  header_string : Bytes → Headers

-- A list that is set as an Array or as one object.
pub data Listing : Type 0 where
  no_list : Listing
  listed : List Value → Listing
  single : Value → Listing

-- rbce->opts, by key.
pub record Opts : Type 0 where
  pub url : Option Bytes
  pub doh_url : Option Bytes
  pub dns_servers : Option Bytes
  pub allowed_hosts : Option (List Bytes)
  pub allowed_cidrs : Option (List Bytes)
  pub interface_hm : Option Bytes
  pub username : Option Bytes
  pub password : Option Bytes
  pub userpwd : Option Bytes
  pub proxy_url : Option Bytes
  pub proxypwd : Option Bytes
  pub noproxy : Option Bytes
  pub body_data : Option Bytes
  pub header_data : Option Bytes
  pub body_proc : Option ℕ
  pub header_proc : Option ℕ
  pub progress_proc : Option ℕ
  pub debug_proc : Option ℕ
  pub complete_proc : Option ℕ
  pub success_proc : Option ℕ
  pub failure_proc : Option ℕ
  pub redirect_proc : Option ℕ
  pub missing_proc : Option ℕ
  pub upload : Option Upload
  pub max_body_bytes : Option ℤ
  pub postdata_buffer : Option Bytes
  pub encoding : Option Bytes
  pub cookiejar : Option Bytes
  pub cookiefile : Option Bytes
  pub cookies : Option Bytes
  pub cert : Option Bytes
  pub certtype : Option Bytes
  pub certpassword : Option Bytes
  pub cert_key : Option Bytes
  pub cacert : Option Bytes
  pub useragent : Option Bytes
  pub headers : Headers
  pub proxy_headers : Headers
  pub ftp_commands : Listing
  pub resolve : Listing
  pub connect_to : Listing

abbrev pub no_opts : Opts
no_opts = record {
  url = none;
  doh_url = none;
  dns_servers = none;
  allowed_hosts = none;
  allowed_cidrs = none;
  interface_hm = none;
  username = none;
  password = none;
  userpwd = none;
  proxy_url = none;
  proxypwd = none;
  noproxy = none;
  body_data = none;
  header_data = none;
  body_proc = none;
  header_proc = none;
  progress_proc = none;
  debug_proc = none;
  complete_proc = none;
  success_proc = none;
  failure_proc = none;
  redirect_proc = none;
  missing_proc = none;
  upload = none;
  max_body_bytes = none;
  postdata_buffer = none;
  encoding = none;
  cookiejar = none;
  cookiefile = none;
  cookies = none;
  cert = none;
  certtype = none;
  certpassword = none;
  cert_key = none;
  cacert = none;
  useragent = none;
  headers = no_headers;
  proxy_headers = no_headers;
  ftp_commands = no_list;
  resolve = no_list;
  connect_to = no_list;
}
