-- ===== src/Network/Gate/Passing.antt =====
-- Which requests the prerequisite callback of ext/curb_easy.c lets through, and what it leaves behind of
-- those it stops.
use curb.Base.{
  ◌≡◌, refl, sym, ◌∙◌, ◌⊎◌, inl, inr, true, false, Option, none, some, List, [], ◌∷◌, Bytes, Exists,
  any, arith, Bool-cases, bytes_eq, bytes_eq_refl, bytes_eq_sound, codes, ap, subst, ◌++◌,
}
use curb.Easy.{Easy}
use curb.Ruby.{Result, ok, raise}
use curb.Network.Rules.{host_rules_match, hosts_match}
use curb.Network.Host.{try_normalize_host_value, normalize_host_value_impl}
use curb.Network.Gate.{
  Platform, Prereq, prereq_ok, prereq_abort, prereq_of_host, prereq_of_url, host_allowlist_prereq,
  has_hosts, store_host_allowlist_error,
}
use curb.Network.Gate.Verdict.{Stored, store_error-Stored}

-- The URL has a host, and its normal form is one of the list, where there is a list.
abbrev pub OfSomeHost : List Bytes → Result (Option Bytes) → Type 0
OfSomeHost [] read = Unit {0}
OfSomeHost (h ∷ hs) read =
    (host : Bytes) × (read ≡ ok (some host)) × Exists (λ x. x ≡ host) (h ∷ hs)

any-Exists :
    (host : Bytes) (hs : List Bytes)
    → any (λ x. bytes_eq host x) hs ≡ true
    → Exists (λ x. x ≡ host) hs
any-Exists host [] h = absurd (ground arith)
any-Exists host (x ∷ xs) h = elim (Bool-cases (bytes_eq host x)) [
  | inl e ↦ inl (sym (bytes_eq_sound host x e))
  | inr e ↦ inr (any-Exists host xs (ground arith))
]

Exists-any :
    (host : Bytes) (hs : List Bytes)
    → Exists (λ x. x ≡ host) hs
    → any (λ x. bytes_eq host x) hs ≡ true
Exists-any host [] h = absurd h
Exists-any host (x ∷ xs) (inl e) = rw (e, bytes_eq_refl host) refl
Exists-any host (x ∷ xs) (inr later) = let rest = Exists-any host xs later in ground arith

missed :
    (h : Bytes) (hs : List Bytes) (host : Bytes)
    → any (λ x. bytes_eq host x) (h ∷ hs) ≡ false
    → OfSomeHost (h ∷ hs) (ok (some host))
    → ⊥
missed h hs host m (other, read, found) = true-false (
    sym (Exists-any host (h ∷ hs) (subst (λ o. Exists (λ x. x ≡ o) (h ∷ hs)) (sym same) found)) ∙ m)
  where
    same : host ≡ other
    same = ground arith

    true-false : true ≡ false → ⊥
    true-false t = cc

abbrev Outcome : Easy → List Bytes → Result (Option Bytes) → Easy × Prereq → Type 0
Outcome e hosts read r =
    (OfSomeHost hosts read × (r ≡ (e, prereq_ok)))
    ⊎ (¬ (OfSomeHost hosts read) × (r.1 ≡ prereq_abort) × Stored e r.0)

module _ (p : Platform) (e : Easy) where
  error-Stored : (host : Bytes) → Stored e (store_host_allowlist_error p e host)
  unfolding store_host_allowlist_error
  error-Stored host =
      store_error-Stored p e
        (codes "blocked URL host " ++ (host ++ codes " by safe mode host allowlist"))

  read-Outcome :
      (h : Bytes) (hs : List Bytes) (read : Result (Option Bytes))
      → e.network_allowed_hosts ≡ h ∷ hs
      → Outcome e (h ∷ hs) read (prereq_of_host p e read)
  unfolding prereq_of_host host_rules_match
  read-Outcome h hs (ok (some host)) here =
      let listed : host_rules_match e host ≡ any (λ x. bytes_eq host x) (h ∷ hs) =
        ap (λ hosts. hosts_match hosts host) here in
      elim (Bool-cases (any (λ x. bytes_eq host x) (h ∷ hs))) [
        | inl m ↦ inl ((host, refl, any-Exists host (h ∷ hs) m), ground arith)
        | inr m ↦ inr (
          λ found. missed h hs host m found,
          rw (listed ∙ m) refl,
          rw (listed ∙ m) (error-Stored host),
        )
      ]
  read-Outcome h hs (ok none) here =
      inr (λ found. unread found.1, refl, error-Stored (codes "unknown"))
    where
      unread : {host : Bytes} → ok none ≡ ok (some host) → ⊥
      unread eq = cc
  read-Outcome h hs (raise x) here =
      inr (λ found. unread found.1, refl, error-Stored (codes "unknown"))
    where
      unread : {host : Bytes} → raise x ≡ ok (some host) → ⊥
      unread eq = cc

  url-Outcome :
      (h : Bytes) (hs : List Bytes) (url : Option Bytes)
      → e.network_allowed_hosts ≡ h ∷ hs
      → Outcome e (h ∷ hs) (try_normalize_host_value url) (prereq_of_url p e url)
  unfolding prereq_of_url try_normalize_host_value normalize_host_value_impl prereq_of_host
      store_host_allowlist_error
  url-Outcome h hs none here = read-Outcome h hs (ok none) here
  url-Outcome h hs (some url) here = read-Outcome h hs (try_normalize_host_value (some url)) here

  prereq-Outcome :
      (hosts : List Bytes) (url : Option Bytes)
      → e.network_allowed_hosts ≡ hosts
      → Outcome e hosts (try_normalize_host_value url) (host_allowlist_prereq p url e)
  unfolding host_allowlist_prereq prereq_of_url
  prereq-Outcome [] url here = inl (tt, ground arith)
  prereq-Outcome (h ∷ hs) url here =
      let listed : has_hosts e ≡ true = rw here refl in rw listed (url-Outcome h hs url here)

-- With no list of hosts every request passes. With one, a request passes, with the state as it was, if
-- its effective URL has a host whose normal form is on the list; any other, also one whose URL is not
-- known, is aborted with the flag set and one text in both buffers, and nothing else changes.
pub prereq-verdict :
    (p : Platform) (effective_url : Option Bytes) (e : Easy)
    → let read = try_normalize_host_value effective_url in
      let r = host_allowlist_prereq p effective_url e in
      (OfSomeHost e.network_allowed_hosts read × (r ≡ (e, prereq_ok)))
      ⊎ (¬ (OfSomeHost e.network_allowed_hosts read) × (r.1 ≡ prereq_abort) × Stored e r.0)
prereq-verdict p effective_url e = prereq-Outcome p e e.network_allowed_hosts effective_url refl
