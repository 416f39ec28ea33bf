-- ===== src/Network/Rules/Stored.antt =====
-- The allowlists that the setters of ext/curb_easy.c store.
use curb.Base.{◌≡◌, Option, Bytes}
use curb.Ruby.{ok, ◌>>=◌}
use curb.Easy.{Easy}
use curb.Network.Cidr.{Family, CidrRule, parse_cidr_rule}
use curb.Network.Rules.{string_value_cstr}

module _ (inet_pton : Family → Bytes → Option Bytes) where
  -- A stored range is one that parses.
  abbrev pub Parses : Bytes → Type 0
  Parses cidr =
      (rule : CidrRule) × ((string_value_cstr cidr >>= parse_cidr_rule inet_pton) ≡ ok rule)
