-- ===== src/Setup/Dangling.antt =====
-- Libcurl's handle refers to no list that is gone (ext/curb_easy.c).
use curb.Base.{true, List, [], ◌∷◌, Bytes, is_some, ◌≡◌, refl, arith, inl, inr, ◌⊎◌}
use curb.Easy.{Easy}
use curb.Ruby.{Result, ok, raise}
use curb.Setup.Lists.{
  ListOptions, Strings, Pair, clear_pair, fill_pair, pointed, append_all, header_texts, http_header,
  http_proxy_header, command_texts, listing_texts, ListSetup, clear_headers_list,
  clear_proxy_headers_list, clear_ftp_commands_list, clear_resolve_list, clear_connect_to_list,
  clear_setup_lists, setup_headers, setup_proxy_headers, setup_ftp_commands, setup_resolve,
  setup_connect_to, setup_lists, and_lists,
}

-- The option of a list is NULL or the list.
abbrev pub SafePair : Pair → Type 0
SafePair (list, option) = (option ≡ []) ⊎ (option ≡ list)

abbrev pub Safe : Easy × ListOptions → Type 0
Safe (e, o) =
    SafePair (e.curl_headers, o.httpheader)
    × SafePair (e.curl_proxy_headers, o.proxyheader)
    × SafePair (e.curl_ftp_commands, o.quote)
    × SafePair (e.curl_resolve, o.resolve)
    × SafePair (e.curl_connect_to, o.connect_to)

-- Every option is its list.
abbrev pub InUse : Easy × ListOptions → Type 0
InUse (e, o) =
    (o.httpheader ≡ e.curl_headers)
    × (o.proxyheader ≡ e.curl_proxy_headers)
    × (o.quote ≡ e.curl_ftp_commands)
    × (o.resolve ≡ e.curl_resolve)
    × (o.connect_to ≡ e.curl_connect_to)

pub clear_pair-gone : (p : Pair) → SafePair p → clear_pair true p ≡ ([], [])
clear_pair-gone ([], option) (inl e) = rw e refl
clear_pair-gone ([], option) (inr e) = rw e refl
clear_pair-gone (s ∷ list, option) safe = refl

abbrev pub Gone : Easy × ListOptions → Type 0
Gone (e, o) =
    (e.curl_headers ≡ [])
    × (o.httpheader ≡ [])
    × (e.curl_proxy_headers ≡ [])
    × (o.proxyheader ≡ [])
    × (e.curl_ftp_commands ≡ [])
    × (o.quote ≡ [])
    × (e.curl_resolve ≡ [])
    × (o.resolve ≡ [])
    × (e.curl_connect_to ≡ [])
    × (o.connect_to ≡ [])

-- With a handle, clearing leaves no list and no option.
clear_setup_lists-Gone :
    (e : Easy) (o : ListOptions)
    → is_some e.curl ≡ true
    → Safe (e, o)
    → Gone (clear_setup_lists e o)
unfolding clear_setup_lists clear_headers_list clear_proxy_headers_list clear_ftp_commands_list
    clear_resolve_list clear_connect_to_list
clear_setup_lists-Gone e o handle safe =
    let a = clear_pair-gone (e.curl_headers, o.httpheader) safe.0 in
    let b = clear_pair-gone (e.curl_proxy_headers, o.proxyheader) safe.1 in
    let c = clear_pair-gone (e.curl_ftp_commands, o.quote) safe.2 in
    let d = clear_pair-gone (e.curl_resolve, o.resolve) safe.3 in
    let f = clear_pair-gone (e.curl_connect_to, o.connect_to) safe.4 in ground arith

module _ (S : Strings) where
  pointed-Safe :
      (r : List Bytes × Result (Unit {0}))
      → SafePair (pointed S [] r).0
        × ((pointed S [] r).1 ≡ ok tt → (pointed S [] r).0.1 ≡ (pointed S [] r).0.0)
  pointed-Safe (list, raise x) = (inl refl, λ h. cc)
  pointed-Safe ([], ok u) = (inl refl, λ h. refl)
  pointed-Safe (s ∷ list, ok u) = (inr refl, λ h. refl)

  fill_pair-Safe :
      (texts : List (Result Bytes)) (p : Pair)
      → p ≡ ([], [])
      → SafePair (fill_pair S texts p).0
        × ((fill_pair S texts p).1 ≡ ok tt → (fill_pair S texts p).0.1 ≡ (fill_pair S texts p).0.0)
  fill_pair-Safe texts p gone = rw gone (pointed-Safe (append_all S [] texts))

  -- What each step comes to.
  abbrev Outcome : ListSetup → Type 0
  Outcome (s, r) = Safe s × (r ≡ ok tt → InUse s)

  used-Safe : (s : Easy × ListOptions) → InUse s → Safe s
  used-Safe (e, o) used = (inr used.0, inr used.1, inr used.2, inr used.3, inr used.4)

  and_lists-Outcome :
      (r : ListSetup) (next : Easy → ListOptions → ListSetup)
      → Outcome r
      → (InUse r.0 → Outcome (next r.0.0 r.0.1))
      → Outcome (and_lists r next)
  and_lists-Outcome ((e, o), ok u) next h rest = rest (h.1 refl)
  and_lists-Outcome ((e, o), raise x) next h rest = h

  setup_headers-Outcome :
      (e : Easy) (o : ListOptions)
      → InUse (e, o)
      → e.curl_headers ≡ []
      → Outcome (setup_headers S e o)
  unfolding setup_headers
  setup_headers-Outcome e o used gone =
      let f =
        fill_pair-Safe (header_texts S (http_header S) e.opts.headers) (e.curl_headers, [])
          (rw gone refl) in
      (
        (f.0, inr used.1, inr used.2, inr used.3, inr used.4),
        λ h. (f.1 h, used.1, used.2, used.3, used.4),
      )

  setup_proxy_headers-Outcome :
      (e : Easy) (o : ListOptions)
      → InUse (e, o)
      → e.curl_proxy_headers ≡ []
      → Outcome (setup_proxy_headers S e o)
  unfolding setup_proxy_headers
  setup_proxy_headers-Outcome e o used gone =
      let f =
        fill_pair-Safe (header_texts S (http_proxy_header S) e.opts.proxy_headers)
          (e.curl_proxy_headers, []) (rw gone refl) in
      (
        (inr used.0, f.0, inr used.2, inr used.3, inr used.4),
        λ h. (used.0, f.1 h, used.2, used.3, used.4),
      )

  setup_ftp_commands-Outcome :
      (e : Easy) (o : ListOptions)
      → InUse (e, o)
      → e.curl_ftp_commands ≡ []
      → Outcome (setup_ftp_commands S e o)
  unfolding setup_ftp_commands
  setup_ftp_commands-Outcome e o used gone =
      let f =
        fill_pair-Safe (command_texts S e.opts.ftp_commands) (e.curl_ftp_commands, o.quote)
          (rw (used.2, gone) refl) in
      (
        (inr used.0, inr used.1, f.0, inr used.3, inr used.4),
        λ h. (used.0, used.1, f.1 h, used.3, used.4),
      )

  setup_resolve-Outcome :
      (e : Easy) (o : ListOptions)
      → InUse (e, o)
      → e.curl_resolve ≡ []
      → Outcome (setup_resolve S e o)
  unfolding setup_resolve
  setup_resolve-Outcome e o used gone =
      let f =
        fill_pair-Safe (listing_texts S e.opts.resolve) (e.curl_resolve, o.resolve)
          (rw (used.3, gone) refl) in
      (
        (inr used.0, inr used.1, inr used.2, f.0, inr used.4),
        λ h. (used.0, used.1, used.2, f.1 h, used.4),
      )

  setup_connect_to-Outcome :
      (e : Easy) (o : ListOptions)
      → InUse (e, o)
      → e.curl_connect_to ≡ []
      → Outcome (setup_connect_to S e o)
  unfolding setup_connect_to
  setup_connect_to-Outcome e o used gone =
      let f =
        fill_pair-Safe (listing_texts S e.opts.connect_to) (e.curl_connect_to, o.connect_to)
          (rw (used.4, gone) refl) in
      (
        (inr used.0, inr used.1, inr used.2, inr used.3, f.0),
        λ h. (used.0, used.1, used.2, used.3, f.1 h),
      )

  -- If the easy has a handle, and each of the five list options of the handle is NULL or the list that
  -- the easy keeps for it, then setting the lists up leaves it so, also where a string cannot be made or
  -- appended and the setup raises; where it does not raise every option is its list.
  pub setup_lists-Safe :
      (e : Easy) (o : ListOptions)
      → is_some e.curl ≡ true
      → Safe (e, o)
      → Safe (setup_lists S e o).0 × ((setup_lists S e o).1 ≡ ok tt → InUse (setup_lists S e o).0)
  unfolding setup_lists setup_headers setup_proxy_headers setup_ftp_commands setup_resolve
      setup_connect_to
  setup_lists-Safe e o handle safe =
      let c = clear_setup_lists e o in
      let g = clear_setup_lists-Gone e o handle safe in
      let used : InUse c = ground arith in
      and_lists-Outcome (setup_headers S c.0 c.1) _ (setup_headers-Outcome c.0 c.1 used g.0) λ u1.
        let s1 = (setup_headers S c.0 c.1).0 in
        and_lists-Outcome (setup_proxy_headers S s1.0 s1.1) _
          (setup_proxy_headers-Outcome s1.0 s1.1 u1 g.2)
          λ u2.
            let s2 = (setup_proxy_headers S s1.0 s1.1).0 in
            and_lists-Outcome (setup_ftp_commands S s2.0 s2.1) _
              (setup_ftp_commands-Outcome s2.0 s2.1 u2 g.4)
              λ u3.
                let s3 = (setup_ftp_commands S s2.0 s2.1).0 in
                and_lists-Outcome (setup_resolve S s3.0 s3.1) _
                  (setup_resolve-Outcome s3.0 s3.1 u3 g.6)
                  λ u4.
                    let s4 = (setup_resolve S s3.0 s3.1).0 in
                    setup_connect_to-Outcome s4.0 s4.1 u4 g.8
