-- ===== src/Setopt/Policy.antt =====
-- easy.setopt of ext/curb_easy.c cannot get around the public network policy.
use curb.Base.{◌≡◌, refl, true, false, Bool, none, some, inl, inr, arith, is_some}
use curb.Base.Int.{ℤ}
use curb.Easy.{Easy}
use curb.Easy.Callbacks.{enter_native, leave_native}
use curb.PostField.{Forms}
use curb.Request.{Call, Body, no_body, text_body, object_body, post_body_set_with_mode}
use curb.Ruby.{Value, Result, ok, raise, Result-cases}
use curb.Setopt.Values.{make_list, option_to_long, text_or_null, long_or}
use curb.Setup.Dangling.{Safe, clear_pair-gone}
use curb.Setopt.{
  curlopt_verbose, curlopt_followlocation, curlopt_key, curlopt_post, curlopt_unsupported,
  curlopt_customrequest, curlopt_http_version, curlopt_header, curlopt_noprogress, curlopt_httpget,
  curlopt_nobody, curlopt_doh_url, curlopt_unix_socket_path, curlopt_dns_servers,
  curlopt_ftp_response_timeout, curlopt_ftp_filemethod, curlopt_forbid_reuse,
  curlopt_max_send_speed_large, curlopt_max_recv_speed_large, curlopt_stderr, curlopt_cookielist,
  curlopt_toggle, curlopt_long, curlopt_text, curlopt_string, curlopt_postfields, curlopt_resolve,
  curlopt_connect_to, Curlopt, Convert, Target,
}
use curb.Setopt.Apply.{setopt, setopt_resolve, setopt_connect_to, converted, posted}
use curb.Setup.Lists.{clear_resolve_list, clear_connect_to_list}

-- What the network policy reads of an easy.
abbrev pub SamePolicy : Easy → Easy → Type 0
SamePolicy e new =
    (new.network_policy ≡ e.network_policy)
    × (new.allow_proxy ≡ e.allow_proxy)
    × (new.allow_unix_socket ≡ e.allow_unix_socket)
    × (new.opts.allowed_cidrs ≡ e.opts.allowed_cidrs)
    × (new.opts.allowed_hosts ≡ e.opts.allowed_hosts)

module _ {F : Forms} (C : Convert) where
  post_body-SamePolicy :
      (force : Bool) (body : Body) (c : Call F)
      → SamePolicy c.easy (post_body_set_with_mode force body c).0.easy
  unfolding post_body_set_with_mode enter_native leave_native
  post_body-SamePolicy force no_body c = (refl, refl, refl, refl, refl)
  post_body-SamePolicy force (text_body s) c = (refl, refl, refl, refl, refl)
  post_body-SamePolicy force (object_body none) c = (refl, refl, refl, refl, refl)
  post_body-SamePolicy force (object_body (some (ok s))) c = (refl, refl, refl, refl, refl)
  post_body-SamePolicy force (object_body (some (raise x))) c = (refl, refl, refl, refl, refl)

  pub setopt-SamePolicy :
      (unset : ℤ) (option : Curlopt) (v : Value) (t : Target F)
      → SamePolicy t.call.easy (setopt C unset option v t).0.call.easy
  unfolding setopt setopt_resolve setopt_connect_to clear_resolve_list clear_connect_to_list
  setopt-SamePolicy unset option v t = ground (arith, post_body-SamePolicy false (C.body v) t.call)

  -- The handle stays, and its list options are NULL or the easy's lists.
  abbrev pub SafeTarget : Target F → Type 0
  SafeTarget t = (is_some t.call.easy.curl ≡ true) × Safe (t.call.easy, t.options.lists)

  resolve-SafeTarget :
      (v : Value) (t : Target F) → SafeTarget t → SafeTarget (setopt_resolve C v t).0
  unfolding setopt_resolve clear_resolve_list
  resolve-SafeTarget v t safe =
      let gone = clear_pair-gone (t.call.easy.curl_resolve, t.options.lists.resolve) safe.1.3 in
      elim (Result-cases (make_list C v)) [
        | inl (list, e) ↦ rw (e, safe.0) (refl, (safe.1.0, safe.1.1, safe.1.2, inr refl, safe.1.4))
        | inr (x, e) ↦
            rw (e, safe.0, gone) (refl, (safe.1.0, safe.1.1, safe.1.2, inl refl, safe.1.4))
      ]

  connect_to-SafeTarget :
      (v : Value) (t : Target F) → SafeTarget t → SafeTarget (setopt_connect_to C v t).0
  unfolding setopt_connect_to clear_connect_to_list
  connect_to-SafeTarget v t safe =
      let gone =
        clear_pair-gone (t.call.easy.curl_connect_to, t.options.lists.connect_to) safe.1.4 in
      elim (Result-cases (make_list C v)) [
        | inl (list, e) ↦ rw (e, safe.0) (refl, (safe.1.0, safe.1.1, safe.1.2, safe.1.3, inr refl))
        | inr (x, e) ↦
            rw (e, safe.0, gone) (refl, (safe.1.0, safe.1.1, safe.1.2, safe.1.3, inl refl))
      ]

  posted-SafeTarget :
      (body : Body) (t : Target F)
      → SafeTarget t
      → SafeTarget (posted t (post_body_set_with_mode false body t.call)).0
  unfolding post_body_set_with_mode enter_native leave_native
  posted-SafeTarget no_body t safe = safe
  posted-SafeTarget (text_body s) t safe = safe
  posted-SafeTarget (object_body none) t safe = safe
  posted-SafeTarget (object_body (some (ok s))) t safe = safe
  posted-SafeTarget (object_body (some (raise x))) t safe = safe

  converted-SafeTarget {ℓ} :
      {A : Type ℓ} (t : Target F) (r : Result A) (write : A → Target F → Target F)
      → ((a : A) → SafeTarget (write a t))
      → SafeTarget t
      → SafeTarget (converted t r write).0
  converted-SafeTarget t (ok a) write written safe = written a
  converted-SafeTarget t (raise x) write written safe = safe

  pub setopt-SafeTarget :
      (unset : ℤ) (option : Curlopt) (v : Value) (t : Target F)
      → SafeTarget t
      → SafeTarget (setopt C unset option v t).0
  unfolding setopt
  setopt-SafeTarget unset curlopt_verbose v t safe = safe
  setopt-SafeTarget unset curlopt_followlocation v t safe = safe
  setopt-SafeTarget unset (curlopt_key key) v t safe = safe
  setopt-SafeTarget unset curlopt_post v t safe = safe
  setopt-SafeTarget unset curlopt_unsupported v t safe = safe
  setopt-SafeTarget unset curlopt_postfields v t safe = posted-SafeTarget (C.body v) t safe
  setopt-SafeTarget unset curlopt_resolve v t safe = resolve-SafeTarget v t safe
  setopt-SafeTarget unset curlopt_connect_to v t safe = connect_to-SafeTarget v t safe
  setopt-SafeTarget unset curlopt_customrequest v t safe =
      converted-SafeTarget _ (text_or_null C v) _ (λ a. safe) safe
  setopt-SafeTarget unset curlopt_http_version v t safe =
      converted-SafeTarget _ (long_or C unset v) _ (λ a. safe) safe
  setopt-SafeTarget unset curlopt_header v t safe =
      converted-SafeTarget _ (option_to_long C v) _ (λ a. safe) safe
  setopt-SafeTarget unset curlopt_noprogress v t safe =
      converted-SafeTarget _ (option_to_long C v) _ (λ a. safe) safe
  setopt-SafeTarget unset curlopt_httpget v t safe =
      converted-SafeTarget _ (option_to_long C v) _ (λ a. safe) safe
  setopt-SafeTarget unset curlopt_nobody v t safe =
      converted-SafeTarget _ (option_to_long C v) _ (λ a. safe) safe
  setopt-SafeTarget unset curlopt_doh_url v t safe =
      converted-SafeTarget _ (text_or_null C v) _ (λ a. safe) safe
  setopt-SafeTarget unset curlopt_unix_socket_path v t safe =
      converted-SafeTarget _ (text_or_null C v) _ (λ a. safe) safe
  setopt-SafeTarget unset curlopt_dns_servers v t safe =
      converted-SafeTarget _ (text_or_null C v) _ (λ a. safe) safe
  setopt-SafeTarget unset curlopt_ftp_response_timeout v t safe =
      converted-SafeTarget _ (option_to_long C v) _ (λ a. safe) safe
  setopt-SafeTarget unset curlopt_ftp_filemethod v t safe =
      converted-SafeTarget _ (option_to_long C v) _ (λ a. safe) safe
  setopt-SafeTarget unset curlopt_forbid_reuse v t safe =
      converted-SafeTarget _ (C.num2long v) _ (λ a. safe) safe
  setopt-SafeTarget unset curlopt_max_send_speed_large v t safe =
      converted-SafeTarget _ (C.num2long v) _ (λ a. safe) safe
  setopt-SafeTarget unset curlopt_max_recv_speed_large v t safe =
      converted-SafeTarget _ (C.num2long v) _ (λ a. safe) safe
  setopt-SafeTarget unset curlopt_stderr v t safe =
      converted-SafeTarget _ (C.file v) _ (λ a. safe) safe
  setopt-SafeTarget unset curlopt_cookielist v t safe =
      converted-SafeTarget _ (C.c_string v) _ (λ a. safe) safe
  setopt-SafeTarget unset (curlopt_toggle o) v t safe =
      converted-SafeTarget _ (option_to_long C v) _ (λ a. safe) safe
  setopt-SafeTarget unset (curlopt_long o) v t safe =
      converted-SafeTarget _ (C.num2long v) _ (λ a. safe) safe
  setopt-SafeTarget unset (curlopt_text o) v t safe =
      converted-SafeTarget _ (text_or_null C v) _ (λ a. safe) safe
  setopt-SafeTarget unset (curlopt_string o) v t safe =
      converted-SafeTarget _ (C.c_string v) _ (λ a. safe) safe
