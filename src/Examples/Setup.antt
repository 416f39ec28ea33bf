-- ===== src/Examples/Setup.antt =====
-- The theorems on the setup of a transfer at concrete inputs (ext/curb_easy.c).
use curb.Base.{◌≡◌, ◌++◌, refl, inl, inr, true, false, none, some, [], ◌∷◌, codes}
use curb.Base.Int.{pos}
use curb.Easy.{Easy, policy_public, listed}
use curb.Examples.State.{fresh, toy_pton}
use curb.Ruby.{ok, nil}
use curb.Setup.{Handle, unset}
use curb.Setup.General.{General}
use curb.Setup.History.{all_setups, last_text, key_of, password_of, Settled, all_setups-Settled}
use curb.Setup.Lists.{ListOptions, Strings}
use curb.Setup.Whole.{Options, setup, SetUp, setup-SetUp}

abbrev guarded : Easy
guarded = record fresh {
  network_policy = policy_public;
  opts = record (fresh.opts) { url = some (codes "http://a.org/") };
}

abbrev bare : Handle
bare = record {
  url = none;
  doh_url = none;
  dns_servers = none;
  prereq_function = false;
  opensocket_function = false;
  fresh_connect = false;
  forbid_reuse = pos 0;
  unix_socket_path = some (codes "/s");
  network_interface = none;
  username = none;
  password = none;
  userpwd = none;
  proxy = some (codes "p");
  proxyuserpwd = none;
  noproxy = none;
  write_function = unset;
  header_function = unset;
}

abbrev pub strings : Strings
strings = record { as_string = λ v. ok (codes "x"); append_fails = λ list s. false }

-- An easy whose lists of an earlier transfer are still in use.
abbrev pub in_use : Easy
in_use = record guarded {
  curl_headers = codes "A: b" ∷ [];
  opts = record (guarded.opts) { resolve = listed (nil ∷ []) };
}

abbrev used_options : ListOptions
used_options = record {
  httpheader = codes "A: b" ∷ [];
  proxyheader = [];
  quote = [];
  resolve = [];
  connect_to = [];
}

-- What an earlier setup with a certificate and a cookie left.
abbrev pub old_options : General
old_options = record {
  encoding = none;
  xferinfo_function = false;
  noprogress = false;
  debug_function = false;
  verbose = false;
  header = false;
  followlocation = false;
  maxredirs = pos 0;
  httpproxytunnel = false;
  filetime = false;
  ssl_verifypeer = 0;
  ssl_verifyhost = pos 0;
  netrc_optional = false;
  unrestricted_auth = false;
  timeout_ms = 0;
  connecttimeout = 0;
  connecttimeout_ms = 0;
  dns_cache_timeout = pos 0;
  ignore_content_length = false;
  ipresolve = 0;
  http_version = pos 0;
  ftp_response_timeout = 0;
  low_speed_limit = pos 0;
  low_speed_time = pos 0;
  max_recv_speed_large = pos 0;
  max_send_speed_large = pos 0;
  proxyport = 0;
  localport = 0;
  localportrange = 0;
  proxytype = pos 0;
  httpauth = pos 0;
  proxyauth = pos 0;
  cookiejar = none;
  cookiefile = none;
  cookie = some (codes "id=1");
  sslcerttype = none;
  sslcert = some (codes "me.pem");
  sslcertpasswd = none;
  sslkey = none;
  cainfo = none;
  sslversion = pos 0;
  use_ssl = pos 0;
  ftp_filemethod = pos 0;
  useragent = none;
}

-- A setup with a certificate and a tunnel before the one without.
abbrev tunnelled : Easy
tunnelled = record fresh {
  proxy_tunnel = true;
  opts = record (fresh.opts) { cert = some (codes "a.pem"); cert_key = some (codes "a.key") };
}

all_setups-Settled_example :
    let new = all_setups ((tunnelled ∷ []) ++ fresh ∷ []) old_options in
    Settled fresh new
    × (new.sslcert
        ≡ last_text (λ e. e.opts.cert) ((tunnelled ∷ []) ++ fresh ∷ []) old_options.sslcert)
    × (new.sslkey ≡ last_text key_of ((tunnelled ∷ []) ++ fresh ∷ []) old_options.sslkey)
    × (new.sslcertpasswd
        ≡ last_text password_of ((tunnelled ∷ []) ++ fresh ∷ []) old_options.sslcertpasswd)
    × (new.cookie
        ≡ last_text (λ e. e.opts.cookies) ((tunnelled ∷ []) ++ fresh ∷ []) old_options.cookie)
all_setups-Settled_example = all_setups-Settled (tunnelled ∷ []) fresh old_options

abbrev pub old_whole : Options
old_whole = record { network = bare; general = old_options; lists = used_options }

setup-SetUp_example : SetUp toy_pton strings in_use (setup toy_pton strings in_use old_whole)
setup-SetUp_example =
    setup-SetUp toy_pton strings in_use old_whole refl
      (inr refl, inl refl, inl refl, inl refl, inl refl)
