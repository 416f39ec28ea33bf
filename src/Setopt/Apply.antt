-- ===== src/Setopt/Apply.antt =====
-- The switch of ruby_curl_easy_set_opt in ext/curb_easy.c.
use curb.Base.{true, false, ◌∷◌, if◌then◌else◌}
use curb.Base.Int.{ℤ}
use curb.Easy.{Easy, Opts}
use curb.Easy.Body.{as_size}
use curb.PostField.{Forms}
use curb.Request.{Call, set_request_easy, post_body_set_with_mode}
use curb.Ruby.{type_error, Value, Result, ok, raise}
use curb.Setup.{Handle}
use curb.Setup.General.{General}
use curb.Setup.Lists.{ListOptions, clear_resolve_list, clear_connect_to_list}
use curb.Setopt.Values.{option_to_long, text_or_null, long_or, listing, make_list, truthy}
use curb.Setopt.{
  Curlopt, curlopt_verbose, curlopt_followlocation, curlopt_customrequest, curlopt_http_version,
  curlopt_header, curlopt_noprogress, curlopt_httpget, curlopt_nobody, curlopt_post,
  curlopt_postfields, curlopt_doh_url, curlopt_unix_socket_path, curlopt_dns_servers,
  curlopt_ftp_response_timeout, curlopt_ftp_filemethod, curlopt_forbid_reuse,
  curlopt_max_send_speed_large, curlopt_max_recv_speed_large, curlopt_stderr, curlopt_cookielist,
  curlopt_resolve, curlopt_connect_to, curlopt_unsupported, curlopt_key, curlopt_toggle,
  curlopt_long, curlopt_text, curlopt_string, Forwarded, to_toggle, to_long, to_text, to_string,
  to_cookielist, to_stderr, Convert, Target, nonzero, keep_text, is_command,
}

module _ {F : Forms} where
  abbrev pub on_easy : (Easy → Easy) → Target F → Target F
  on_easy change t = record t { call = set_request_easy (change t.call.easy) t.call }

  abbrev pub on_opts : (Opts → Opts) → Target F → Target F
  on_opts change = on_easy λ e. record e { opts = change e.opts }

  abbrev pub on_network : (Handle → Handle) → Target F → Target F
  on_network change t = record t {
    options = record (t.options) { network = change t.options.network };
  }

  abbrev pub on_general : (General → General) → Target F → Target F
  on_general change t = record t {
    options = record (t.options) { general = change t.options.general };
  }

  abbrev pub on_lists : ListOptions → Target F → Target F
  on_lists lists t = record t { options = record (t.options) { lists = lists } }

  abbrev pub on_call : (Call F → Call F) → Target F → Target F
  on_call change t = record t { call = change t.call }

  abbrev pub forward : Forwarded → Target F → Target F
  forward write t = record t { forwarded = write ∷ t.forwarded }

  abbrev pub posted : Target F → Call F × Result (Unit {0}) → Target F × Result (Unit {0})
  posted t (c, r) = (record t { call = c }, r)

  -- A conversion that raises leaves things as they are.
  abbrev pub converted {ℓ} :
      {A : Type ℓ} → Target F → Result A → (A → Target F → Target F) → Target F × Result (Unit {0})
  converted t (ok a) write = (write a t, ok tt)
  converted t (raise x) write = (t, raise x)

  module _ (C : Convert) where
    unfoldable pub setopt_resolve : Value → Target F → Target F × Result (Unit {0})
    setopt_resolve v t =
        let cleared = clear_resolve_list t.call.easy t.options.lists in
        let t1 = on_lists cleared.1 (on_easy (λ e. cleared.0) t) in
        converted t1 (make_list C v) λ list t.
          on_lists (record (t.options.lists) { resolve = list })
            (on_easy
              (λ e. record e {
                curl_resolve = list;
                opts = record (e.opts) { resolve = listing C v };
              })
              t)

    unfoldable pub setopt_connect_to : Value → Target F → Target F × Result (Unit {0})
    setopt_connect_to v t =
        let cleared = clear_connect_to_list t.call.easy t.options.lists in
        let t1 = on_lists cleared.1 (on_easy (λ e. cleared.0) t) in
        converted t1 (make_list C v) λ list t.
          on_lists (record (t.options.lists) { connect_to = list })
            (on_easy
              (λ e. record e {
                curl_connect_to = list;
                opts = record (e.opts) { connect_to = listing C v };
              })
              t)

    -- CURL_HTTP_VERSION_NONE is what nil stands for.
    unfoldable pub setopt :
        (http_version_none : ℤ) → Curlopt → Value → Target F → Target F × Result (Unit {0})
    setopt unset curlopt_verbose v t = (on_easy (λ e. record e { verbose = truthy v }) t, ok tt)
    setopt unset curlopt_followlocation v t =
        (on_easy (λ e. record e { follow_location = truthy v }) t, ok tt)
    setopt unset (curlopt_key key) v t = (on_opts (keep_text key (C.text v)) t, ok tt)
    setopt unset curlopt_customrequest v t =
        converted t (text_or_null C v) λ s. on_call λ c. record c { customrequest = s }
    setopt unset curlopt_http_version v t = converted t (long_or C unset v) λ n t.
        on_general (λ g. record g { http_version = n })
          (on_easy (λ e. record e { http_version = n }) t)
    setopt unset curlopt_header v t =
        converted t (option_to_long C v) λ n. on_general λ g. record g { header = nonzero n }
    setopt unset curlopt_noprogress v t =
        converted t (option_to_long C v) λ n. on_general λ g. record g { noprogress = nonzero n }
    setopt unset curlopt_httpget v t =
        converted t (option_to_long C v) λ n. on_call λ c. record c { httpget = nonzero n }
    setopt unset curlopt_nobody v t =
        converted t (option_to_long C v) λ n. on_call λ c. record c { nobody = nonzero n }
    setopt unset curlopt_post v t = (on_call (λ c. record c { post = C.is_true v }) t, ok tt)
    setopt unset curlopt_postfields v t = posted t (post_body_set_with_mode false (C.body v) t.call)
    setopt unset curlopt_doh_url v t =
        converted (on_opts (λ o. record o { doh_url = C.text v }) t) (text_or_null C v)
          λ s. on_network λ h. record h { doh_url = s }
    setopt unset curlopt_unix_socket_path v t =
        converted t (text_or_null C v) λ s. on_network λ h. record h { unix_socket_path = s }
    setopt unset curlopt_dns_servers v t =
        converted (on_opts (λ o. record o { dns_servers = C.text v }) t) (text_or_null C v)
          λ s. on_network λ h. record h { dns_servers = s }
    setopt unset curlopt_ftp_response_timeout v t = converted t (option_to_long C v) λ n t.
        on_general (λ g. record g { ftp_response_timeout = as_size n })
          (on_easy (λ e. record e { ftp_response_timeout = as_size n }) t)
    setopt unset curlopt_ftp_filemethod v t = converted t (option_to_long C v) λ n t.
        on_general (λ g. record g { ftp_filemethod = n })
          (on_easy (λ e. record e { ftp_filemethod = n }) t)
    setopt unset curlopt_forbid_reuse v t = converted t (C.num2long v) λ n t.
        on_network (λ h. record h { forbid_reuse = n })
          (on_easy (λ e. record e { forbid_reuse = n; forbid_reuse_set = true }) t)
    setopt unset curlopt_max_send_speed_large v t =
        converted t (C.num2long v) λ n. on_general λ g. record g { max_send_speed_large = n }
    setopt unset curlopt_max_recv_speed_large v t =
        converted t (C.num2long v) λ n. on_general λ g. record g { max_recv_speed_large = n }
    setopt unset curlopt_stderr v t = converted t (C.file v) λ f. forward (to_stderr f)
    setopt unset curlopt_cookielist v t = converted t (C.c_string v) λ s t.
        forward (to_cookielist s) (
          on_easy
            (λ e. record e {
              cookielist_engine_enabled =
                  if is_command s then e.cookielist_engine_enabled else true;
            })
            t)
    setopt unset curlopt_resolve v t = setopt_resolve v t
    setopt unset curlopt_connect_to v t = setopt_connect_to v t
    setopt unset curlopt_unsupported v t = (t, raise type_error)
    setopt unset (curlopt_toggle o) v t =
        converted t (option_to_long C v) λ n. forward (to_toggle o n)
    setopt unset (curlopt_long o) v t = converted t (C.num2long v) λ n. forward (to_long o n)
    setopt unset (curlopt_text o) v t = converted t (text_or_null C v) λ s. forward (to_text o s)
    setopt unset (curlopt_string o) v t = converted t (C.c_string v) λ s. forward (to_string o s)
