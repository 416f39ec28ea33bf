-- ===== src/Setup/Whole.antt =====
-- ruby_curl_easy_setup of ext/curb_easy.c as a whole: its three stages one after another, between the
-- two ends of a native operation.
use curb.Base.{◌≡◌, refl, ◌∙◌, true, Option, Bytes, is_some, arith}
use curb.Easy.{Easy, policy_public}
use curb.Easy.Callbacks.{enter_native, leave_native}
use curb.Network.Cidr.{Family}
use curb.Network.Rules.{
  prepare_network_allowed_hosts, clear_network_allowed_hosts, prepare_network_allowed_cidr_rules,
  clear_network_allowed_cidr_rules,
}
use curb.Ruby.{Result, ok, raise}
use curb.Setup.{
  Handle, Setup, setup_url, setup_dns, setup_hosts, setup_policy, setup_auth, setup_proxy,
  setup_handlers, setup_network,
}
use curb.Setup.General.{General, setup_general}
use curb.Setup.Lists.{
  ListOptions, ListSetup, Strings, clear_headers_list, clear_proxy_headers_list,
  clear_ftp_commands_list, clear_resolve_list, clear_connect_to_list, clear_setup_lists,
  setup_headers, setup_proxy_headers, setup_ftp_commands, setup_resolve, setup_connect_to,
  setup_lists,
}
use curb.Setup.Dangling.{Safe, InUse, setup_lists-Safe}
use curb.Setup.Guarded.{Guarded, setup_network-Guarded}

-- All the options of the handle that a setup writes.
pub record Options : Type 0 where
  pub network : Handle
  pub general : General
  pub lists : ListOptions

abbrev pub WholeSetup : Type 0
WholeSetup = (Easy × Options) × Result (Unit {0})

-- What a setup leaves as it is: the multi and the handle.
abbrev pub Kept : Easy → Easy → Type 0
Kept e new = (new.multi ≡ e.multi) × (new.curl ≡ e.curl) × (new.native_active ≡ e.native_active)

abbrev pub SameLists : Easy → Easy → Type 0
SameLists e new =
    (new.curl_headers ≡ e.curl_headers)
    × (new.curl_proxy_headers ≡ e.curl_proxy_headers)
    × (new.curl_ftp_commands ≡ e.curl_ftp_commands)
    × (new.curl_resolve ≡ e.curl_resolve)
    × (new.curl_connect_to ≡ e.curl_connect_to)

module _ (inet_pton : Family → Bytes → Option Bytes) where
  setup_network-Kept :
      (e : Easy) (h : Handle)
      → Kept e (setup_network inet_pton e h).0.0 × SameLists e (setup_network inet_pton e h).0.0
  unfolding setup_network setup_url setup_dns setup_hosts setup_policy setup_auth setup_proxy
      setup_handlers prepare_network_allowed_hosts clear_network_allowed_hosts
      prepare_network_allowed_cidr_rules clear_network_allowed_cidr_rules
  setup_network-Kept e h = ground arith

-- The rules of the network policy that are in use.
abbrev SameRules : Easy → Easy → Type 0
SameRules e new =
    (new.network_allowed_cidr_rules ≡ e.network_allowed_cidr_rules)
    × (new.network_allowed_hosts ≡ e.network_allowed_hosts)

module _ (S : Strings) where
  setup_lists-Kept :
      (e : Easy) (o : ListOptions)
      → Kept e (setup_lists S e o).0.0 × SameRules e (setup_lists S e o).0.0
  unfolding setup_lists setup_headers setup_proxy_headers setup_ftp_commands setup_resolve
      setup_connect_to clear_setup_lists clear_headers_list clear_proxy_headers_list
      clear_ftp_commands_list clear_resolve_list clear_connect_to_list
  setup_lists-Kept e o = ground arith

SameLists-Safe : (e new : Easy) (o : ListOptions) → SameLists e new → Safe (e, o) → Safe (new, o)
SameLists-Safe e new o same safe = rw (same.0, same.1, same.2, same.3, same.4) safe

module _ (inet_pton : Family → Bytes → Option Bytes) (S : Strings) where
  abbrev with_lists : Handle → General → ListSetup → WholeSetup
  with_lists h g ((e, l), r) = ((e, record { network = h; general = g; lists = l }), r)

  abbrev after_network : Setup → Options → WholeSetup
  after_network ((e, h), raise x) o = ((e, record o { network = h }), raise x)
  after_network ((e, h), ok u) o =
      with_lists h (setup_general e o.general) (setup_lists S e o.lists)

  unfoldable pub setup_body : Easy → Options → WholeSetup
  setup_body e o = after_network (setup_network inet_pton e o.network) o

  abbrev left : WholeSetup → WholeSetup
  left ((e, o), r) = ((leave_native e, o), r)

  unfoldable pub setup : Easy → Options → WholeSetup
  setup e o = left (setup_body (enter_native e) o)

  -- What a setup comes to, raised or not.
  abbrev pub SetUp : Easy → WholeSetup → Type 0
  SetUp e s =
      Kept e s.0.0
      × Safe (s.0.0, s.0.1.lists)
      × (s.1 ≡ ok tt
          → InUse (s.0.0, s.0.1.lists)
            × (e.network_policy ≡ policy_public
                → Guarded inet_pton e ((s.0.0, s.0.1.network), s.1)))

  listed-SetUp :
      (e new : Easy) (h : Handle) (o : Options)
      → Kept e new
      → is_some new.curl ≡ true
      → Safe (new, o.lists)
      → (e.network_policy ≡ policy_public → Guarded inet_pton e ((new, h), ok tt))
      → SetUp e (with_lists h (setup_general new o.general) (setup_lists S new o.lists))
  listed-SetUp e new h o kept handle safe guarded =
      let lists = setup_lists-Safe S new o.lists handle safe in
      let after = setup_lists-Kept S new o.lists in
      (
        (after.0.0 ∙ kept.0, after.0.1 ∙ kept.1, after.0.2 ∙ kept.2),
        lists.0,
        λ done. (lists.1 done, λ public. let g = guarded public in ground arith),
      )

  after_network-SetUp :
      (e : Easy) (o : Options) (s : Setup)
      → Kept e s.0.0
      → SameLists e s.0.0
      → is_some e.curl ≡ true
      → Safe (e, o.lists)
      → (s.1 ≡ ok tt → e.network_policy ≡ policy_public → Guarded inet_pton e s)
      → SetUp e (after_network s o)
  after_network-SetUp e o ((new, h), ok u) kept same handle safe guarded =
      listed-SetUp e new h o kept (rw (kept.1) handle) (SameLists-Safe e new o.lists same safe)
        (guarded refl)
  after_network-SetUp e o ((new, h), raise x) kept same handle safe guarded =
      (kept, SameLists-Safe e new o.lists same safe, λ done. cc)

  setup_body-SetUp :
      (e : Easy) (o : Options)
      → is_some e.curl ≡ true
      → Safe (e, o.lists)
      → SetUp e (setup_body e o)
  unfolding setup_body
  setup_body-SetUp e o handle safe =
      let kept = setup_network-Kept inet_pton e o.network in
      after_network-SetUp e o (setup_network inet_pton e o.network) kept.0 kept.1 handle safe
        (λ done public. setup_network-Guarded inet_pton e o.network public done)

  -- Setting up an easy that has a handle, where each list option of the handle is NULL or the easy's
  -- list, leaves the easy's multi, its handle and its count of native operations as they were, and
  -- each list option NULL or the easy's list, whether the setup raises or not; where it does not, every
  -- list option is the easy's list, and under the public policy the options are those of a guarded
  -- handle, with the easy's rules.
  pub setup-SetUp :
      (e : Easy) (o : Options) → is_some e.curl ≡ true → Safe (e, o.lists) → SetUp e (setup e o)
  unfolding setup enter_native leave_native
  setup-SetUp e o handle safe =
      let body = setup_body-SetUp (enter_native e) o handle safe in
      ((body.0.0, body.0.1, ground arith), body.1, body.2)

  -- The setup as multi_add runs it.
  unfoldable pub setup_easy : Options → Easy → Easy × Result (Unit {0})
  setup_easy o e = let r = setup e o in (r.0.0, r.1)

  after_network-multi : (o : Options) (s : Setup) → (after_network s o).0.0.multi ≡ s.0.0.multi
  after_network-multi o ((e, h), ok u) = (setup_lists-Kept S e o.lists).0.0
  after_network-multi o ((e, h), raise x) = refl

  pub setup_easy-multi : (o : Options) (e : Easy) → (setup_easy o e).0.multi ≡ e.multi
  unfolding setup_easy setup setup_body enter_native leave_native
  setup_easy-multi o e =
      let s = setup_network inet_pton (enter_native e) o.network in
      after_network-multi o s ∙ (setup_network-Kept inet_pton (enter_native e) o.network).0.0
