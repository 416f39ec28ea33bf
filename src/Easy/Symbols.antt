-- ===== src/Easy/Symbols.antt =====
-- Attributes of an easy that are Symbols in Ruby: resolve_mode and network_policy of ext/curb_easy.c.
-- A Symbol is its name.
use curb.Base.{
  ℕ, false, Bytes, codes, bytes_eq, if◌then◌else◌, ◌==◌, ◌≡◌, ◌≢◌, refl, arith, bytes_eq_sound,
}
use curb.Easy.{Easy, policy_none, policy_public}
use curb.Ruby.{arg_error, type_error, Result, ok, raise}

pub data Word : Type 0 where
  nil_word : Word
  symbol : Bytes → Word
  other_object : ℕ → Word

-- CURL_IPRESOLVE_WHATEVER, CURL_IPRESOLVE_V4 and CURL_IPRESOLVE_V6
pub record Ipresolve : Type 0 where
  pub whatever : ℕ
  pub v4 : ℕ
  pub v6 : ℕ

unfoldable pub resolve_mode : Ipresolve → Easy → Word
resolve_mode c e =
    if e.resolve_mode == c.v4
    then symbol (codes "ipv4")
    else (if e.resolve_mode == c.v6 then symbol (codes "ipv6") else symbol (codes "auto"))

abbrev pub resolve_mode_named : Ipresolve → Bytes → Easy → Easy × Result Word
resolve_mode_named c name e =
    if bytes_eq name (codes "auto")
    then (record e { resolve_mode = c.whatever }, ok (symbol name))
    else (if bytes_eq name (codes "ipv4")
        then (record e { resolve_mode = c.v4 }, ok (symbol name))
        else (if bytes_eq name (codes "ipv6")
            then (record e { resolve_mode = c.v6 }, ok (symbol name))
            else (e, raise arg_error)))

unfoldable pub resolve_mode_set : Ipresolve → Word → Easy → Easy × Result Word
resolve_mode_set c nil_word e = (e, raise type_error)
resolve_mode_set c (symbol name) e = resolve_mode_named c name e
resolve_mode_set c (other_object o) e = (e, raise type_error)

unfoldable pub network_policy_get : Easy → Word
network_policy_get e = elim e.network_policy [
  | policy_public ↦ symbol (codes "public")
  | policy_none ↦ symbol (codes "none")
]

abbrev pub network_policy_named : Bytes → Easy → Easy × Result Word
network_policy_named name e =
    if bytes_eq name (codes "none")
    then (record e { network_policy = policy_none; allow_proxy = false }, ok (symbol name))
    else (if bytes_eq name (codes "public")
        then (record e { network_policy = policy_public; allow_proxy = false }, ok (symbol name))
        else (e, raise arg_error))

-- With CURB_HAVE_OPENSOCKET_NETWORK_POLICY; nil leaves allow_proxy as it is.
unfoldable pub network_policy_set : Word → Easy → Easy × Result Word
network_policy_set nil_word e =
    (record e { network_policy = policy_none }, ok (symbol (codes "none")))
network_policy_set (symbol name) e = network_policy_named name e
network_policy_set (other_object o) e = (e, raise type_error)

-- Each setter either gives the Symbol that the getter then gives, or raises and changes nothing.
abbrev pub ReadBack : (Easy → Word) → Easy → Easy × Result Word → Type 0
ReadBack get e (new, ok w) = get new ≡ w
ReadBack get e (new, raise x) = new ≡ e

abbrev pub NoProxy : Easy × Result Word → Type 0
NoProxy (new, ok w) = w ≡ symbol (codes "public") → new.allow_proxy ≡ false
NoProxy (new, raise x) = Unit

abbrev pub Distinct : Ipresolve → Type 0
Distinct c = (c.whatever ≢ c.v4) × (c.whatever ≢ c.v6) × (c.v4 ≢ c.v6)

resolve_mode_named-ReadBack :
    (c : Ipresolve) (name : Bytes) (e : Easy)
    → Distinct c
    → ReadBack (resolve_mode c) e (resolve_mode_named c name e)
unfolding resolve_mode
resolve_mode_named-ReadBack c name e distinct =
    let auto = bytes_eq_sound name (codes "auto") in
    let ipv4 = bytes_eq_sound name (codes "ipv4") in
    let ipv6 = bytes_eq_sound name (codes "ipv6") in ground arith

network_policy_named-ReadBack :
    (name : Bytes) (e : Easy)
    → ReadBack network_policy_get e (network_policy_named name e)
      × NoProxy (network_policy_named name e)
unfolding network_policy_get
network_policy_named-ReadBack name e =
    let unset = bytes_eq_sound name (codes "none") in
    let public = bytes_eq_sound name (codes "public") in ground arith

-- If the three modes of libcurl differ, then setting resolve_mode or network_policy to any value gives
-- what is read back afterwards, or raises and changes nothing; and the Symbol :public turns off the
-- use of proxies.
symbols-ReadBack :
    (c : Ipresolve) (v : Word) (e : Easy)
    → Distinct c
    → ReadBack (resolve_mode c) e (resolve_mode_set c v e)
      × ReadBack network_policy_get e (network_policy_set v e)
      × NoProxy (network_policy_set v e)
unfolding resolve_mode_set network_policy_set network_policy_get
symbols-ReadBack c nil_word e distinct = (refl, refl, λ h. absurd (ground arith))
symbols-ReadBack c (symbol name) e distinct =
    let policy = network_policy_named-ReadBack name e in
    (resolve_mode_named-ReadBack c name e distinct, policy.0, policy.1)
symbols-ReadBack c (other_object o) e distinct = (refl, refl, tt)
