-- ===== src/Examples/Attributes.antt =====
-- The theorems of attributes at concrete inputs (ext/curb_easy.c).
use curb.Base.{◌%◌, ◌≡◌, ◌↔◌, Option, some, List, [], ◌∷◌, codes, arith}
use curb.Base.Int.{ℤ, pos, negsuc}
use curb.Easy.Accessors.Flags.{verbose}
use curb.Easy.Accessors.Handlers.{body_proc}
use curb.Easy.Accessors.Texts.{cacert}
use curb.Easy.Accessors.Last.{Call, flag_call, handler_call, text_call}
use curb.Easy.Attributes.Auth.{AuthBits, basic, any}
use curb.Easy.Attributes.{
  local_port_set, local_port_get, local_port_range_set, local_port_range_get, proxy_port_set,
  proxy_port_get, ssl_verify_host_set,
}
use curb.Easy.Attributes.Ports.{Exact, ports-Exact, ssl_verify_host_set-off}
use curb.Examples.State.{fresh}
use curb.Ruby.{ok, qfalse, object}

-- One more than the last port.
abbrev too_high : Option ℤ
too_high = some (pos 65536)

ports-Exact_example :
    Exact local_port_set local_port_get too_high fresh
    × Exact local_port_range_set local_port_range_get too_high fresh
    × Exact proxy_port_set proxy_port_get too_high fresh
ports-Exact_example = ports-Exact too_high fresh

ssl_verify_host_set-off_example :
    ((ssl_verify_host_set (some (negsuc 255)) fresh).1 ≡ ok (some (negsuc 255)))
    × (((ssl_verify_host_set (some (negsuc 255)) fresh).0.ssl_verify_host ≡ pos 0)
        ↔ (256 % 256 ≡ 0))
ssl_verify_host_set-off_example = ssl_verify_host_set-off (negsuc 255) fresh (omega arith)

-- The bits as libcurl has them.
abbrev bits : AuthBits
bits = record {
  basic = 1;
  digest_ie = 16;
  digest = 2;
  gssnegotiate = 4;
  ntlm = 8;
  anysafe = 18_446_744_073_709_551_598;
  any = 18_446_744_073_709_551_599;
}

-- verbose is turned on and off, with a handler and a text between.
abbrev some_calls : List Call
some_calls =
    flag_call verbose (object 1)
    ∷ handler_call body_proc (some 7)
    ∷ flag_call verbose qfalse
    ∷ text_call cacert (some (codes "ca.pem"))
    ∷ []
