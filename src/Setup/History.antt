-- ===== src/Setup/History.antt =====
-- One setup after another of an easy on the same handle (ext/curb_easy.c): what the last one decides and
-- what earlier ones leave. The easy has other settings at each of them.
use curb.Base.{
  true, false, Option, none, some, List, [], ◌∷◌, Bytes, is_none, is_some, ◌≡◌, refl, ◌∙◌, ◌++◌, ap,
  sym, subst, arith, ◌⊎◌,
}
use curb.Easy.{Easy, policy_none, policy_public}
use curb.Setup.General.{
  General, text_or, setup_callbacks, setup_plain, setup_ports, setup_cookies, setup_tls,
  setup_general,
}

unfoldable pub all_setups : List Easy → General → General
all_setups [] g = g
all_setups (e ∷ es) g = all_setups es (setup_general e g)

-- What the last setup decides alone.
abbrev pub Settled : Easy → General → Type 0
Settled e g =
    (g.noprogress ≡ is_none e.opts.progress_proc)
    × (g.debug_function ≡ is_some e.opts.debug_proc)
    × (g.header ≡ e.header_in_body)
    × (g.followlocation ≡ e.follow_location)
    × (g.maxredirs ≡ e.max_redirs)
    × (e.network_policy ≡ policy_public → e.allow_proxy ≡ false → g.httpproxytunnel ≡ false)
    × ((e.network_policy ≡ policy_none) ⊎ (e.allow_proxy ≡ true)
        → g.httpproxytunnel ≡ e.proxy_tunnel)
    × (g.ssl_verifypeer ≡ e.ssl_verify_peer)
    × (g.ssl_verifyhost ≡ e.ssl_verify_host)
    × (g.timeout_ms ≡ e.timeout_ms)

setup_general-Settled : (e : Easy) (g : General) → Settled e (setup_general e g)
unfolding setup_general setup_callbacks setup_plain setup_ports setup_cookies setup_tls
setup_general-Settled e g = ground arith

-- The last text that is not nil, or the old one.
abbrev pub last_text : (Easy → Option Bytes) → List Easy → Option Bytes → Option Bytes
last_text text [] old = old
last_text text (e ∷ es) old = elim (text e) [
  | some new ↦ last_text text es (some new)
  | none ↦ last_text text es old
]

-- A key and a password count where there is a certificate.
abbrev pub key_of : Easy → Option Bytes
key_of e = elim e.opts.cert [ none ↦ none | some cert ↦ e.opts.cert_key ]

abbrev pub password_of : Easy → Option Bytes
password_of e = elim e.opts.cert [ none ↦ none | some cert ↦ e.opts.certpassword ]

module _ (text : Easy → Option Bytes) (field : General → Option Bytes)
    (step : (e : Easy) (g : General) → field (setup_general e g) ≡ text_or (text e) (field g)) where
  last_of :
      (e : Easy) (es : List Easy) (old : Option Bytes)
      → last_text text es (text_or (text e) old) ≡ last_text text (e ∷ es) old
  last_of e es old = ground arith

  all_setups-last :
      (es : List Easy) (g : General) → field (all_setups es g) ≡ last_text text es (field g)
  unfolding all_setups
  all_setups-last [] g = refl
  all_setups-last (e ∷ es) g =
      all_setups-last es (setup_general e g)
      ∙ ap (last_text text es) (step e g)
      ∙ last_of e es (field g)

all_setups-step :
    (es : List Easy) (e : Easy) (g : General)
    → (first : General) × (all_setups (es ++ e ∷ []) g ≡ setup_general e first)
unfolding all_setups
all_setups-step [] e g = (g, refl)
all_setups-step (e' ∷ es) e g = all_setups-step es e (setup_general e' g)

-- After any setups of an easy on one handle, whatever the handle was before and the easy at each of
-- them: the progress and debug callbacks, the header flag, the redirects, the checks of certificates,
-- the timeout and the tunnel are those that the easy has at the last setup, but that there is no tunnel
-- where the public policy disables proxies; the certificate, its key and its password, and the cookies,
-- are the last ones that were not nil at any of the setups, with a certificate for the key and the
-- password, or what the handle had.
pub all_setups-Settled :
    (es : List Easy) (e : Easy) (g : General)
    → let new = all_setups (es ++ e ∷ []) g in
      Settled e new
      × (new.sslcert ≡ last_text (λ e. e.opts.cert) (es ++ e ∷ []) g.sslcert)
      × (new.sslkey ≡ last_text key_of (es ++ e ∷ []) g.sslkey)
      × (new.sslcertpasswd ≡ last_text password_of (es ++ e ∷ []) g.sslcertpasswd)
      × (new.cookie ≡ last_text (λ e. e.opts.cookies) (es ++ e ∷ []) g.cookie)
unfolding setup_general setup_callbacks setup_plain setup_ports setup_cookies setup_tls
all_setups-Settled es e g =
    let (first, same) = all_setups-step es e g in
    (
      subst (Settled e) (sym same) (setup_general-Settled e first),
      all_setups-last (λ e. e.opts.cert) (λ g. g.sslcert) (λ e g. refl) (es ++ e ∷ []) g,
      all_setups-last key_of (λ g. g.sslkey) (λ e g. ground arith) (es ++ e ∷ []) g,
      all_setups-last password_of (λ g. g.sslcertpasswd) (λ e g. ground arith) (es ++ e ∷ []) g,
      all_setups-last (λ e. e.opts.cookies) (λ g. g.cookie) (λ e g. refl) (es ++ e ∷ []) g,
    )
