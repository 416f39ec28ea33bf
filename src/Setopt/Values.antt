-- ===== src/Setopt/Values.antt =====
-- What ruby_curl_easy_set_opt of ext/curb_easy.c makes of the value that it gets.
use curb.Base.{Bool, ◌||◌, not, Option, none, some, List, [], Bytes, if◌then◌else◌}
use curb.Base.Int.{ℤ, pos}
use curb.Easy.{Listing, no_list, listed, single}
use curb.Ruby.{Value, Result, ok, ◌>>=◌}
use curb.Setup.Lists.{Strings, append_all, listing_texts}
use curb.Setopt.{Convert, is_nil, is_false}

abbrev pub truthy : Value → Bool
truthy v = not (is_nil v || is_false v)

module _ (C : Convert) where
  -- ruby_curl_easy_option_to_long
  unfoldable pub option_to_long : Value → Result ℤ
  option_to_long v =
      if C.is_true v
      then ok (pos 1)
      else (if is_false v then ok (pos 0) else (C.to_i v >>= C.num2long))

  abbrev pub text_or_null : Value → Result (Option Bytes)
  text_or_null v = if is_nil v then ok none else (C.c_string v >>= λ s. ok (some s))

  abbrev pub long_or : ℤ → Value → Result ℤ
  long_or unset v = if is_nil v then ok unset else C.num2long v

  abbrev pub listing : Value → Listing
  listing v =
      if is_nil v
      then no_list
      else elim (C.elements v) [ none ↦ single v | some items ↦ listed items ]

  -- A list of strings is made, and let go if that raises.
  unfoldable pub make_list : Value → Result (List Bytes)
  make_list v =
      let S : Strings = record { as_string = C.c_string; append_fails = C.append_fails } in
      let r = append_all S [] (listing_texts S (listing v)) in r.1 >>= λ u. ok r.0
