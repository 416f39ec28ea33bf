-- ===== src/Setup/Guarded.antt =====
-- What holds of libcurl's handle once a transfer is set up under the public network policy
-- (ext/curb_easy.c).
use curb.Base.{◌≡◌, true, false, Option, none, some, [], Bytes, is_some, arith}
use curb.Base.Int.{pos}
use curb.Easy.{Easy, policy_public}
use curb.Network.Cidr.{Family}
use curb.Network.Rules.{
  prepare_network_allowed_hosts, clear_network_allowed_hosts, prepare_network_allowed_cidr_rules,
  parse_rules, or_empty,
}
use curb.Setup.{
  Handle, Setup, setup_url, setup_dns, setup_hosts, setup_policy, setup_auth, setup_proxy,
  setup_handlers, setup_network,
}
use curb.Ruby.{ok}

module _ (inet_pton : Family → Bytes → Option Bytes) where
  -- Every connection is checked and fresh, no name server is chosen, and there is a proxy or a Unix
  -- socket only where it is allowed; the rules in use are those of the list.
  abbrev pub Guarded : Easy → Setup → Type 0
  Guarded before ((e, h), r) =
      (h.opensocket_function ≡ true)
      × (h.fresh_connect ≡ true)
      × (h.forbid_reuse ≡ pos 1)
      × (h.dns_servers ≡ none)
      × (before.allow_proxy ≡ false → (h.proxy ≡ some []) × (h.proxyuserpwd ≡ none))
      × (before.allow_unix_socket ≡ false → h.unix_socket_path ≡ none)
      × (parse_rules inet_pton (or_empty before.opts.allowed_cidrs)
          ≡ ok e.network_allowed_cidr_rules)
      × (e.network_allowed_hosts ≡ or_empty before.opts.allowed_hosts)
      × (h.prereq_function ≡ is_some before.opts.allowed_hosts)

  -- Under the public policy, a setup that does not raise leaves libcurl's handle, whatever was set on it
  -- before, with the socket callback in place, fresh connections that are not reused and no name
  -- servers; with the proxy off unless proxies are allowed, and no Unix socket unless those are; with
  -- the rules in use those that the list of ranges parses to, the hosts those of the list, and the
  -- request callback in place exactly if there is such a list.
  pub setup_network-Guarded :
      (e : Easy) (h : Handle)
      → e.network_policy ≡ policy_public
      → (setup_network inet_pton e h).1 ≡ ok tt
      → Guarded e (setup_network inet_pton e h)
  unfolding setup_network setup_url setup_dns setup_hosts setup_policy setup_auth setup_proxy
      setup_handlers prepare_network_allowed_hosts clear_network_allowed_hosts
      prepare_network_allowed_cidr_rules
  setup_network-Guarded e h public done = ground arith
