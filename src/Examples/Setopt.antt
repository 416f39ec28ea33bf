-- ===== src/Examples/Setopt.antt =====
-- The theorem on easy.setopt at concrete inputs (ext/curb_easy.c).
use curb.Base.{refl, inl, inr, false, none, some, List, [], ◌∷◌, Option, Bytes, codes}
use curb.Base.Int.{ℤ, pos}
use curb.Easy.{zero}
use curb.Easy.Callbacks.{enter_native, leave_native}
use curb.Examples.Fields.{forms}
use curb.Examples.Request.{a_call}
use curb.Examples.Setup.{strings, old_whole, in_use}
use curb.Examples.State.{toy_pton}
use curb.Network.Rules.{
  prepare_network_allowed_cidr_rules, parse_rules, clear_network_allowed_hosts,
}
use curb.Request.{no_body}
use curb.Ruby.{type_error, Value, nil, qfalse, str, int, object, Result, ok, raise}
use curb.Setopt.{
  Curlopt, curlopt_key, key_proxy_url, curlopt_unix_socket_path, curlopt_forbid_reuse,
  curlopt_resolve, curlopt_string, range, Convert, Target,
}
use curb.Setopt.Apply.{setopt, setopt_resolve}
use curb.Setopt.Guarded.{network_of, setopts, setopts-Guarded}
use curb.Setopt.Values.{make_list}
use curb.Setup.{
  setup_network, setup_url, setup_dns, setup_hosts, setup_policy, setup_auth, setup_proxy,
  setup_handlers,
}
use curb.Setup.Guarded.{Guarded}
use curb.Setup.Lists.{
  setup_lists, setup_headers, setup_proxy_headers, setup_ftp_commands, setup_resolve,
  setup_connect_to, clear_setup_lists, clear_headers_list, clear_proxy_headers_list,
  clear_ftp_commands_list, clear_resolve_list, clear_connect_to_list,
}
use curb.Setup.Whole.{setup, setup_body}

abbrev as_text : Value → Option Bytes
as_text (str s) = some s
as_text nil = none
as_text qfalse = none
as_text (int n) = none
as_text (object o) = none

abbrev as_string : Value → Result Bytes
as_string (str s) = ok s
as_string nil = raise type_error
as_string qfalse = raise type_error
as_string (int n) = raise type_error
as_string (object o) = raise type_error

abbrev as_integer : Value → Result ℤ
as_integer (int n) = ok n
as_integer nil = raise type_error
as_integer qfalse = raise type_error
as_integer (str s) = raise type_error
as_integer (object o) = raise type_error

abbrev plain : Convert
plain = record {
  num2long = as_integer;
  to_i = λ v. ok v;
  c_string = as_string;
  file = λ v. raise type_error;
  is_true = λ v. false;
  elements = λ v. none;
  text = as_text;
  body = λ v. no_body;
  append_fails = λ list s. false;
}

abbrev target : Target forms
target = record { call = record a_call { easy = in_use }; options = old_whole; forwarded = [] }

-- A proxy, a socket, connections that are kept, an address, and a range that is no String.
abbrev calls : List (Curlopt × Value)
calls =
    (curlopt_key key_proxy_url, str (codes "p:1"))
    ∷ (curlopt_unix_socket_path, str (codes "/s"))
    ∷ (curlopt_forbid_reuse, int (pos 0))
    ∷ (curlopt_resolve, str (codes "a:80:::1"))
    ∷ (curlopt_string range, nil)
    ∷ []

setopts-Guarded_example : Guarded toy_pton in_use (
    network_of (
      setup toy_pton strings
        (setopts plain (pos 0) calls target).call.easy
        (setopts plain (pos 0) calls target).options))
unfolding zero setup_network setup_url setup_dns setup_hosts setup_policy setup_auth setup_proxy
    setup_handlers prepare_network_allowed_cidr_rules parse_rules clear_network_allowed_hosts setup
    setup_body setup_lists setup_headers setup_proxy_headers setup_ftp_commands setup_resolve
    setup_connect_to clear_setup_lists clear_headers_list clear_proxy_headers_list
    clear_ftp_commands_list clear_resolve_list clear_connect_to_list enter_native leave_native
    setopt setopt_resolve make_list
setopts-Guarded_example =
    setopts-Guarded plain toy_pton strings (pos 0) calls target
      (refl, (inr refl, inl refl, inl refl, inl refl, inl refl)) refl refl
