-- ===== src/Setup.antt =====
-- The first half of ruby_curl_easy_setup_body in ext/curb_easy.c: what a transfer sets on libcurl's
-- handle for the network policy, authentication, the proxy and the data callbacks. The other options
-- are in the children. Every HAVE_ and CURB_HAVE_ macro counts as defined.
pub mod Guarded
pub mod General
pub mod History
pub mod Lists
pub mod Dangling
pub mod Whole
use curb.Base.{
  ℕ, Bool, true, false, ◌&&◌, not, Option, none, some, List, [], Bytes, if◌then◌else◌, is_none,
  is_some,
}
use curb.Base.Int.{ℤ, pos, negsuc}
use curb.Easy.{Easy, Opts, NetworkPolicy, policy_none, policy_public}
use curb.Network.Cidr.{Family}
use curb.Network.Rules.{
  prepare_network_allowed_hosts, clear_network_allowed_hosts, prepare_network_allowed_cidr_rules,
  clear_network_allowed_cidr_rules,
}
use curb.Ruby.{Exn, curl_error, unsafe_destination, Result, ok, raise}

-- The callback that CURLOPT_WRITEFUNCTION or CURLOPT_HEADERFUNCTION names.
pub data Handler : Type 0 where
  unset default_handler proc_handler : Handler

-- The options of libcurl's handle that are set here: NULL is `none`, and a callback is there or not.
pub record Handle : Type 0 where
  pub url : Option Bytes
  pub doh_url : Option Bytes
  pub dns_servers : Option Bytes
  pub prereq_function : Bool
  pub opensocket_function : Bool
  pub fresh_connect : Bool
  pub forbid_reuse : ℤ
  pub unix_socket_path : Option Bytes
  pub network_interface : Option Bytes
  pub username : Option Bytes
  pub password : Option Bytes
  pub userpwd : Option Bytes
  pub proxy : Option Bytes
  pub proxyuserpwd : Option Bytes
  pub noproxy : Option Bytes
  pub write_function : Handler
  pub header_function : Handler

abbrev pub Setup : Type 0
Setup = (Easy × Handle) × Result (Unit {0})

abbrev pub and_setup : Setup → (Easy → Handle → Setup) → Setup
and_setup ((e, h), ok u) next = next e h
and_setup ((e, h), raise x) next = ((e, h), raise x)

abbrev pub is_public : Easy → Bool
is_public e = elim e.network_policy [ policy_public ↦ true | policy_none ↦ false ]

-- public_policy_disables_proxy
abbrev pub disables_proxy : Easy → Bool
disables_proxy e = is_public e && not e.allow_proxy

-- The state is reset, and there must be a URL.
unfoldable pub setup_url : Easy → Handle → Setup
setup_url e h =
    let e' = record e {
      callback_error = none;
      unsafe_destination_blocked = false;
      unsafe_destination_error = [];
    } in
    elim e.opts.url [
      | none ↦ ((e', h), raise curl_error)
      | some url ↦ ((e', record h { url = some url; doh_url = e.opts.doh_url }), ok tt)
    ]

unfoldable pub setup_dns : Easy → Handle → Setup
setup_dns e h =
    if is_public e && is_some e.opts.dns_servers
    then ((e, h), raise unsafe_destination)
    else ((e, record h { dns_servers = e.opts.dns_servers }), ok tt)

unfoldable pub setup_hosts : Easy → Handle → Setup
setup_hosts e h =
    if is_some e.opts.allowed_hosts
    then ((prepare_network_allowed_hosts e, record h { prereq_function = true }), ok tt)
    else ((clear_network_allowed_hosts e, record h { prereq_function = false }), ok tt)

-- The options that the public policy sets once its rules are ready.
abbrev pub public_options : Easy → Handle → Handle
public_options e h = record h {
  opensocket_function = true;
  fresh_connect = true;
  forbid_reuse = pos 1;
  unix_socket_path = if e.allow_unix_socket then h.unix_socket_path else none;
}

abbrev pub with_rules : Handle → Easy × Result (Unit {0}) → Setup
with_rules h (e, ok u) = ((e, public_options e h), ok tt)
with_rules h (e, raise x) = ((e, h), raise x)

abbrev pub no_policy_options : Easy → Handle → Handle
no_policy_options e h = record h {
  opensocket_function = false;
  fresh_connect = false;
  forbid_reuse = if e.forbid_reuse_set then e.forbid_reuse else pos 0;
}

unfoldable pub setup_auth : Easy → Handle → Setup
setup_auth e h =
    let h' = record h {
      network_interface = e.opts.interface_hm;
      username = e.opts.username;
      password = e.opts.password;
    } in
    (
      (
        e,
        (if is_some e.opts.userpwd
            then record h' { userpwd = e.opts.userpwd }
            else (if is_none e.opts.username && is_none e.opts.password
                then record h' { userpwd = none }
                else h')),
      ),
      ok tt,
    )

unfoldable pub setup_proxy : Easy → Handle → Setup
setup_proxy e h = (
  (
    e,
    record h {
      proxy = if disables_proxy e then some [] else e.opts.proxy_url;
      proxyuserpwd = if disables_proxy e then none else e.opts.proxypwd;
      noproxy = e.opts.noproxy;
    },
  ),
  ok tt,
)

-- A block takes the data; without one it is collected in an empty buffer.
unfoldable pub setup_handlers : Easy → Handle → Setup
setup_handlers e h = (
  (
    record e {
      downloaded_body_bytes = 0;
      opts = record (e.opts) {
        body_data = if is_some e.opts.body_proc then none else some [];
        header_data = if is_some e.opts.header_proc then none else some [];
      };
    },
    record h {
      write_function = if is_some e.opts.body_proc then proc_handler else default_handler;
      header_function = if is_some e.opts.header_proc then proc_handler else default_handler;
    },
  ),
  ok tt,
)

module _ (inet_pton : Family → Bytes → Option Bytes) where
  unfoldable pub setup_policy : Easy → Handle → Setup
  setup_policy e h =
      if is_public e then with_rules h (prepare_network_allowed_cidr_rules inet_pton e) else (
        (
          clear_network_allowed_cidr_rules e,
          no_policy_options (clear_network_allowed_cidr_rules e) h,
        ),
        ok tt,
      )

  unfoldable pub setup_network : Easy → Handle → Setup
  setup_network e h = and_setup (setup_url e h) λ e h. and_setup (setup_dns e h) λ e h.
      and_setup (setup_hosts e h) λ e h.
        and_setup (setup_policy e h)
          λ e h. and_setup (setup_auth e h) λ e h. and_setup (setup_proxy e h) setup_handlers
