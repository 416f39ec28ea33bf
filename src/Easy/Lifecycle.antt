-- ===== src/Easy/Lifecycle.antt =====
-- The end of a transfer and of a handle, and copies of it, in ext/curb_easy.c. The settings that
-- libcurl's own handle is given on the way are left out: only the fields are here.
use curb.Base.{ℕ, Bool, true, false, none, some, [], if◌then◌else◌, ltb}
use curb.Base.Int.{ℤ}
use curb.Easy.{Easy, Opts, zero}
use curb.Easy.Stream.{duplicate_upload}
use curb.Ruby.{runtime_error, Result, ok, raise}

-- ruby_curl_easy_cleanup
unfoldable pub cleanup : Easy → Easy
cleanup e = record e {
  curl_headers = [];
  curl_proxy_headers = [];
  curl_ftp_commands = [];
  curl_resolve = [];
  curl_connect_to = [];
  network_allowed_cidr_rules = [];
  network_allowed_hosts = [];
  opts = record (e.opts) { upload = none };
}

-- What ruby_curl_easy_free leaves, the detaching from a multi aside.
unfoldable pub freed : Easy → Easy
freed e = record e {
  multi = none;
  curl_headers = [];
  curl_proxy_headers = [];
  curl_ftp_commands = [];
  curl_resolve = [];
  curl_connect_to = [];
  network_allowed_cidr_rules = [];
  network_allowed_hosts = [];
  curl = none;
  self = none;
}

-- Both easy.close and easy.reset refuse while a callback or a transfer runs.
unfoldable pub busy : Easy → Bool
busy e = if e.callback_active then true else ltb 0 e.native_active

-- curl_easy_duphandle gives `handle`, `clone` is the new object, and the maps of options are copied.
unfoldable pub easy_clone : (handle clone : ℕ) → Easy → Easy
easy_clone handle clone e = record e {
  curl = some handle;
  network_allowed_cidr_rules = [];
  network_allowed_hosts = [];
  multi = none;
  callback_error = none;
  unsafe_destination_blocked = false;
  unsafe_destination_error = [];
  native_active = 0;
  self = some clone;
  opts = record (e.opts) { upload = duplicate_upload e.opts.upload };
}

-- ruby_curl_easy_reset, with libcurl's CURL_HTTP_VERSION_NONE and CURL_IPRESOLVE_WHATEVER; the
-- result is the map of options as it was.
unfoldable pub easy_reset : ℤ → ℕ → (self : ℕ) → Easy → Easy × Result Opts
easy_reset http_version_none ipresolve_whatever self e =
    if busy e then (e, raise runtime_error) else (
      record (zero http_version_none ipresolve_whatever (cleanup e)) { self = some self },
      ok e.opts,
    )
