-- ===== src/Request.antt =====
-- The request that an easy makes: the verb and the body, which ext/curb_easy.c keeps in options of
-- libcurl's handle and in the `opts` of the easy, and what a request leaves of them.
pub mod PutData
pub mod Perform
pub mod Restored
use curb.Base.{
  ℕ, Bool, true, false, ◌&&◌, not, Option, none, some, List, [], ◌∷◌, Bytes, bytes_eq, map, codes,
  if◌then◌else◌, is_none, length,
}
use curb.Base.Int.{ℤ}
use curb.Easy.{Easy, Opts, Headers}
use curb.Easy.Callbacks.{enter_native, leave_native}
use curb.Network.Host.{ascii_downcase}
use curb.PostField.{PostField, Forms, append_to_form}
use curb.Ruby.{curl_error, invalid_post_field, runtime_error, Value, nil, str, Result, ok, raise}

-- The options of the handle that a request sets, with the easy.
pub record Call (F : Forms) : Type 0 where
  pub easy : Easy
  pub customrequest : Option Bytes
  pub nobody : Bool
  pub httpget : Bool
  pub post : Bool
  pub postfields : Option Bytes
  pub postfieldsize : ℕ
  pub httppost : F.Form
  pub upload : Bool
  pub read_function : Bool
  pub seek_function : Bool
  pub infilesize : Option ℤ

-- What is posted: nil, a String, or an object with its to_s, if it has one.
pub data Body : Type 0 where
  no_body : Body
  text_body : Bytes → Body
  object_body : Option (Result Bytes) → Body

abbrev pub is_head : Bytes → Bool
is_head verb = bytes_eq (map ascii_downcase verb) (codes "head")

module _ {F : Forms} where
  abbrev pub set_request_easy : Easy → Call F → Call F
  set_request_easy e c = record c { easy = e }

  abbrev pub set_postdata : Option Bytes → Call F → Call F
  set_postdata body c =
      set_request_easy (record (c.easy) { opts = record (c.easy.opts) { postdata_buffer = body } })
        c

  abbrev pub post_text : Bytes → Call F → Call F
  post_text body c = record (set_postdata (some body) c) {
    post = true;
    postfieldsize = length body;
    postfields = some body;
  }

  abbrev pub post_nothing : Bool → Call F → Call F
  post_nothing force_http_get_on_nil c = record (set_postdata none c) {
    postfields = none;
    postfieldsize = 0;
    httpget = if force_http_get_on_nil then true else c.httpget;
  }

  abbrev pub post_converted : Option (Result Bytes) → Call F → Call F × Result (Unit {0})
  post_converted none c = (c, raise runtime_error)
  post_converted (some (raise x)) c = (c, raise x)
  post_converted (some (ok text)) c = (post_text text c, ok tt)

  abbrev pub post_body_set_with_mode_body : Bool → Body → Call F → Call F × Result (Unit {0})
  post_body_set_with_mode_body force no_body c = (post_nothing force c, ok tt)
  post_body_set_with_mode_body force (text_body text) c = (post_text text c, ok tt)
  post_body_set_with_mode_body force (object_body to_s) c = post_converted to_s c

  abbrev pub left_native : Call F × Result (Unit {0}) → Call F × Result (Unit {0})
  left_native (c, r) = (set_request_easy (leave_native c.easy) c, r)

  unfoldable pub post_body_set_with_mode : Bool → Body → Call F → Call F × Result (Unit {0})
  post_body_set_with_mode force body c =
      left_native
        (post_body_set_with_mode_body force body (set_request_easy (enter_native c.easy) c))

  -- easy.post_body = body
  unfoldable pub post_body_set : Body → Call F → Call F × Result (Unit {0})
  post_body_set = post_body_set_with_mode true

  abbrev pub clear_error_buffer : Call F → Call F
  clear_error_buffer c = set_request_easy (record (c.easy) { err_buf = [] }) c

  abbrev pub fields_cleared : Call F → Call F
  fields_cleared c = record (set_postdata none c) {
    post = false;
    postfields = none;
    postfieldsize = 0;
    httpget = true;
  }

  -- The ensure block of a request.
  unfoldable pub request_restore : (customrequest nobody postfields : Bool) → Call F → Call F
  request_restore customrequest nobody postfields c =
      let c1 = if nobody then record c { nobody = false } else c in
      let c2 = if customrequest then record c1 { customrequest = none } else c1 in
      if postfields then fields_cleared c2 else c2

  abbrev pub restored :
      (customrequest nobody postfields : Bool) → Call F × Result Value → Call F × Result Value
  restored customrequest nobody postfields (c, r) =
      (request_restore customrequest nobody postfields c, r)

  -- A HEAD asks for no body.
  abbrev pub with_verb : Bytes → Call F → Call F
  with_verb verb c =
      let c1 = record (clear_error_buffer c) { customrequest = some verb } in
      if is_head verb then record c1 { nobody = true; httpget = false; post = false } else c1

  -- easy.http(verb). `perform` is the Ruby method, which may change anything and may raise.
  unfoldable pub perform_verb_str :
      (Call F → Call F × Result Value) → Bytes → Call F → Call F × Result Value
  perform_verb_str perform verb c = restored true (is_head verb) false (perform (with_verb verb c))
