-- ===== src/Easy/Attributes/Auth.antt =====
-- easy.http_auth_types= of ext/curb_easy.c: the macro CURL_HTTPAUTH_STR_TO_NUM, as built with
-- CURLAUTH_DIGEST_IE, and the setter with its getter. The constants of libcurl are parameters.
use curb.Base.{
  ℕ, ◌==◌, Bool, true, false, ◌&&◌, Option, List, [], ◌∷◌, Bytes, codes, bit_or, if◌then◌else◌,
}
use curb.Base.Int.{ℤ, pos}
use curb.Easy.{Easy}
use curb.Easy.Body.{num2long}
use curb.Easy.Attributes.{immed_get, as_long}
use curb.Ruby.{Result, ok, raise}

-- The bitmaps CURLAUTH_BASIC and so on, each an unsigned long; the mask of them is kept in a long.
pub record AuthBits : Type 0 where
  pub basic : ℕ
  pub digest_ie : ℕ
  pub digest : ℕ
  pub gssnegotiate : ℕ
  pub ntlm : ℕ
  pub anysafe : ℕ
  pub any : ℕ

-- strncmp(name, node, n) == 0 for the n bytes of a name without NUL.
abbrev pub starts_with : (name node : Bytes) → Bool
starts_with [] node = true
starts_with (x ∷ xs) [] = false
starts_with (x ∷ xs) (y ∷ ys) = (x == y) && starts_with xs ys

-- CURL_HTTPAUTH_STR_TO_NUM
unfoldable pub httpauth_str_to_num : AuthBits → Bytes → ℕ
httpauth_str_to_num c node =
    if starts_with (codes "basic") node
    then c.basic
    else if starts_with (codes "digest_ie") node
    then c.digest_ie
    else if starts_with (codes "digest") node
    then c.digest
    else if starts_with (codes "gssnegotiate") node
    then c.gssnegotiate
    else if starts_with (codes "ntlm") node
    then c.ntlm
    else if starts_with (codes "anysafe") node
    then c.anysafe
    else if starts_with (codes "any") node
    then c.any
    else 0

-- An argument: nil, an Integer, or another object, with what its to_s gives.
pub data AuthArg : Type 0 where
  nil_arg : AuthArg
  integer : ℤ → (to_s : Bytes) → AuthArg
  other : (to_s : Bytes) → AuthArg

abbrev pub arg_text : AuthArg → Bytes
arg_text nil_arg = []
arg_text (integer z to_s) = to_s
arg_text (other to_s) = to_s

-- mask |= ... for each argument
unfoldable pub or_masks : AuthBits → ℕ → List AuthArg → ℕ
or_masks c mask [] = mask
or_masks c mask (arg ∷ args) = or_masks c (bit_or mask (httpauth_str_to_num c (arg_text arg))) args

-- rb_ary_entry(args_ary, 0) of no arguments is nil.
abbrev pub auth_mask : AuthBits → List AuthArg → ℕ
auth_mask c [] = httpauth_str_to_num c (arg_text nil_arg)
auth_mask c (arg ∷ args) = or_masks c (httpauth_str_to_num c (arg_text arg)) args

abbrev pub auth_types_put : ℤ → Easy → Easy × Result ℤ
auth_types_put z e = (record e { http_auth_types = z }, ok z)

abbrev pub auth_types_long : Result ℤ → Easy → Easy × Result ℤ
auth_types_long (ok z) e = auth_types_put z e
auth_types_long (raise x) e = (e, raise x)

unfoldable pub http_auth_types_set : AuthBits → List AuthArg → Easy → Easy × Result ℤ
http_auth_types_set c (nil_arg ∷ []) e = auth_types_put (pos 0) e
http_auth_types_set c (integer z to_s ∷ []) e = auth_types_long (num2long z) e
http_auth_types_set c (other to_s ∷ []) e =
    auth_types_put (as_long (auth_mask c (other to_s ∷ []))) e
http_auth_types_set c [] e = auth_types_put (as_long (auth_mask c [])) e
http_auth_types_set c (arg ∷ arg' ∷ args) e =
    auth_types_put (as_long (auth_mask c (arg ∷ arg' ∷ args))) e

unfoldable pub http_auth_types_get : Easy → Option ℤ
http_auth_types_get e = immed_get (pos 0) e.http_auth_types

-- The names that the setter is documented to know.
pub data AuthName : Type 0 where
  basic digest digest_ie gssnegotiate ntlm any anysafe : AuthName

abbrev pub name_text : AuthName → Bytes
name_text basic = codes "basic"
name_text digest = codes "digest"
name_text digest_ie = codes "digest_ie"
name_text gssnegotiate = codes "gssnegotiate"
name_text ntlm = codes "ntlm"
name_text any = codes "any"
name_text anysafe = codes "anysafe"

abbrev pub name_bits : AuthBits → AuthName → ℕ
name_bits c basic = c.basic
name_bits c digest = c.digest
name_bits c digest_ie = c.digest_ie
name_bits c gssnegotiate = c.gssnegotiate
name_bits c ntlm = c.ntlm
name_bits c any = c.any
name_bits c anysafe = c.anysafe

-- A Symbol's to_s is its name.
abbrev pub named : AuthName → AuthArg
named name = other (name_text name)

-- The bits of the names together.
abbrev pub joined_bits : AuthBits → ℕ → List AuthName → ℕ
joined_bits c bits [] = bits
joined_bits c bits (name ∷ names) = joined_bits c (bit_or bits (name_bits c name)) names

-- The text that an Array gives, as Ruby prints it, begins with a bracket.
abbrev pub array_text : Bytes → AuthArg
array_text rest = other (91 ∷ rest)
