-- ===== src/Network/Rules.antt =====
-- The allowlists of ext/curb_easy.c: normalising the lists that a user sets, preparing the rules of
-- a transfer, and matching against them.
pub mod Lists
pub mod Stored
use curb.Base.{
  ℕ, Bool, true, false, Option, none, some, List, [], ◌∷◌, ◌++◌, Bytes, bytes_eq, ◌==◌,
  if◌then◌else◌, any, is_none,
}
use curb.Ruby.{Exn, arg_error, Result, ok, raise, ◌>>=◌}
use curb.Easy.{Easy, NetworkPolicy, policy_none, policy_public}
use curb.Network.Prefix.{ip_prefix_matches}
use curb.Network.Cidr.{Family, ipv4, ipv6, CidrRule, parse_cidr_rule}
use curb.Network.Host.{normalize_host_value}

-- StringValueCStr: a string with a NUL in it has no C string.
unfoldable pub string_value_cstr : Bytes → Result Bytes
string_value_cstr text = if any (λ c. c == 0) text then raise arg_error else ok text

-- curb_array_includes_string
unfoldable pub array_includes_string : List Bytes → Bytes → Bool
array_includes_string list value = any (λ item. bytes_eq item value) list

-- `if (!curb_array_includes_string(normalized, x)) rb_ary_push(normalized, x)`
unfoldable pub push_new : List Bytes → Bytes → List Bytes
push_new normalized x =
    if array_includes_string normalized x then normalized else normalized ++ x ∷ []

-- nil, one object, or an array, of objects that stand here as their strings
pub data ListArg : Type 0 where
  nil : ListArg
  single : Bytes → ListArg
  array : List Bytes → ListArg

abbrev pub or_arg_error : Option Bytes → Result Bytes
or_arg_error none = raise arg_error
or_arg_error (some h) = ok h

-- What one entry of the host list becomes.
unfoldable pub normalized_host : Bytes → Result Bytes
normalized_host item = do
  text ← string_value_cstr item
  host ← normalize_host_value (some text)
  or_arg_error host

-- The loop of both list functions over their items.
unfoldable pub normalize_from :
    (Bytes → Result Bytes) → List Bytes → List Bytes → Result (List Bytes)
normalize_from entry normalized [] = ok normalized
normalize_from entry normalized (item ∷ items) = elim (entry item) [
  | ok x ↦ normalize_from entry (push_new normalized x) items
  | raise e ↦ raise e
]

unfoldable pub normalize_list : (Bytes → Result Bytes) → ListArg → Result (Option (List Bytes))
normalize_list entry nil = ok none
normalize_list entry (single item) = do list ← normalize_from entry [] (item ∷ []); ok (some list)
normalize_list entry (array items) = do list ← normalize_from entry [] items; ok (some list)

unfoldable pub normalize_host_list : ListArg → Result (Option (List Bytes))
normalize_host_list hosts = normalize_list normalized_host hosts

-- What a list in `opts` amounts to for the loops over it.
abbrev pub or_empty : Option (List Bytes) → List Bytes
or_empty none = []
or_empty (some list) = list

unfoldable pub clear_network_allowed_hosts : Easy → Easy
clear_network_allowed_hosts e = record e { network_allowed_hosts = [] }

-- Every stored host is a C string, so copying it cannot fail.
unfoldable pub prepare_network_allowed_hosts : Easy → Easy
prepare_network_allowed_hosts e = record e { network_allowed_hosts = or_empty e.opts.allowed_hosts }

-- No rule lets every host through.
abbrev pub hosts_match : List Bytes → Bytes → Bool
hosts_match [] host = true
hosts_match (rule ∷ rules) host = any (λ r. bytes_eq host r) (rule ∷ rules)

unfoldable pub host_rules_match : Easy → Bytes → Bool
host_rules_match e host = hosts_match e.network_allowed_hosts host

unfoldable pub clear_network_allowed_cidr_rules : Easy → Easy
clear_network_allowed_cidr_rules e = record e { network_allowed_cidr_rules = [] }

abbrev pub family_eq : Family → Family → Bool
family_eq ipv4 ipv4 = true
family_eq ipv4 ipv6 = false
family_eq ipv6 ipv4 = false
family_eq ipv6 ipv6 = true

abbrev pub rule_matches : Family → Bytes → CidrRule → Bool
rule_matches family ip rule =
    if family_eq rule.family family
    then ip_prefix_matches ip rule.address rule.prefix_bits
    else false

-- No rule lets every address through.
abbrev pub cidrs_match : List CidrRule → Family → Bytes → Bool
cidrs_match [] family ip = true
cidrs_match (rule ∷ rules) family ip = any (rule_matches family ip) (rule ∷ rules)

unfoldable pub cidr_rules_match : Easy → Family → Bytes → Bool
cidr_rules_match e family ip = cidrs_match e.network_allowed_cidr_rules family ip

-- easy.allowed_hosts = hosts
unfoldable pub allowed_hosts_set : Easy → ListArg → Easy × Result (Option (List Bytes))
allowed_hosts_set e hosts = elim (normalize_host_list hosts) [
  | raise x ↦ (e, raise x)
  | ok stored ↦ (
    prepare_network_allowed_hosts (record e { opts = record (e.opts) { allowed_hosts = stored } }),
    ok stored,
  )
]

abbrev pub after_prepare :
    Option (List Bytes) → Easy × Result (Unit {0}) → Easy × Result (Option (List Bytes))
after_prepare stored (e, ok _) = (e, ok stored)
after_prepare stored (e, raise x) = (e, raise x)

module _ (inet_pton : Family → Bytes → Option Bytes) where
  unfoldable pub checked_cidr : Bytes → Result Bytes
  checked_cidr item = do
    text ← string_value_cstr item
    rule ← parse_cidr_rule inet_pton text
    ok item

  unfoldable pub normalize_cidr_list : ListArg → Result (Option (List Bytes))
  normalize_cidr_list cidrs = normalize_list checked_cidr cidrs

  -- curb_parse_cidr_rule for each entry, in order.
  unfoldable pub parse_rules : List Bytes → Result (List CidrRule)
  parse_rules [] = ok []
  parse_rules (cidr ∷ cidrs) = elim (string_value_cstr cidr >>= parse_cidr_rule inet_pton) [
    | raise e ↦ raise e
    | ok rule ↦ elim (parse_rules cidrs) [ raise e ↦ raise e | ok rules ↦ ok (rule ∷ rules) ]
  ]

  -- The rules are cleared first, so a raise leaves none.
  unfoldable pub prepare_network_allowed_cidr_rules : Easy → Easy × Result (Unit {0})
  prepare_network_allowed_cidr_rules e = elim (parse_rules (or_empty e.opts.allowed_cidrs)) [
    | raise x ↦ (clear_network_allowed_cidr_rules e, raise x)
    | ok rules ↦ (record e { network_allowed_cidr_rules = rules }, ok tt)
  ]

  -- What a change of the ranges does to the rules in use.
  unfoldable pub refresh_cidr_rules : NetworkPolicy → Easy → Easy × Result (Unit {0})
  refresh_cidr_rules policy_public e = prepare_network_allowed_cidr_rules e
  refresh_cidr_rules policy_none e = (clear_network_allowed_cidr_rules e, ok tt)

  -- easy.allowed_cidrs = cidrs
  unfoldable pub allowed_cidrs_set : Easy → ListArg → Easy × Result (Option (List Bytes))
  allowed_cidrs_set e cidrs = elim (normalize_cidr_list cidrs) [
    | raise x ↦ (e, raise x)
    | ok stored ↦ after_prepare stored (
        refresh_cidr_rules e.network_policy
          (record e { opts = record (e.opts) { allowed_cidrs = stored } }))
  ]
