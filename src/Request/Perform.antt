-- ===== src/Request/Perform.antt =====
-- http_post, http_patch and http_put of ext/curb_easy.c. `perform` and `join` are Ruby's: the method
-- that runs the transfer, and Array#join with "&", which calls to_str of the fields. What appending
-- changes in the fields themselves is not carried from one use of a field to the next.
use curb.Base.{
  Bool, true, false, Option, none, some, List, [], ◌∷◌, Bytes, codes, if◌then◌else◌, is_none, ltb,
  length,
}
use curb.Easy.{Easy}
use curb.Easy.Callbacks.{enter_native, leave_native}
use curb.PostField.{PostField, Forms, append_to_form}
use curb.Request.{
  Call, Body, no_body, text_body, object_body, set_request_easy, clear_error_buffer, post_body_set,
  restored,
}
use curb.Request.PutData.{PutData, Numbers, Stream, stream_data, text_data, put_data_set}
use curb.Ruby.{curl_error, invalid_post_field, Value, Result, ok, raise}

-- An argument of a request: a String, an object that responds to `read`, a field, an Array of fields
-- (`none` is an item that is no field), or another object.
pub data Argument : Type 0 where
  text : Bytes → Argument
  reader : Stream → Argument
  field : PostField → Argument
  fields : List (Option PostField) → Argument
  other : Value → Argument

-- Ruby's side of a request.
pub record Ruby (F : Forms) : Type 0 where
  pub perform : Call F → Call F × Result Value
  pub join : List Argument → Easy → Easy × Result Body
  pub numbers : Numbers

module _ (F : Forms) where
  abbrev pub append_fields : List (Option PostField) → F.Form → F.Form × Result (Unit {0})
  append_fields [] form = (form, ok tt)
  append_fields (none ∷ items) form = (form, raise invalid_post_field)
  append_fields (some f ∷ items) form =
      let r = append_to_form F f form in
      elim r.2 [ ok u ↦ append_fields items r.1 | raise x ↦ (r.1, raise x) ]

  unfoldable pub append_argument : Argument → F.Form → F.Form × Result (Unit {0})
  append_argument (field f) form = append_fields (some f ∷ []) form
  append_argument (fields items) form = append_fields items form
  append_argument (text s) form = (form, raise invalid_post_field)
  append_argument (reader s) form = (form, raise invalid_post_field)
  append_argument (other v) form = (form, raise invalid_post_field)

  unfoldable pub append_arguments : List Argument → F.Form → F.Form × Result (Unit {0})
  append_arguments [] form = (form, ok tt)
  append_arguments (argument ∷ arguments) form =
      let r = append_argument argument form in
      elim r.1 [ ok u ↦ append_arguments arguments r.0 | raise x ↦ (r.0, raise x) ]

module _ {F : Forms} (R : Ruby F) where
  abbrev pub joined : Call F → Easy × Result Body → Call F × Result Body
  joined c (e, r) = (set_request_easy (leave_native e) c, r)

  unfoldable pub join_easy_arguments : List Argument → Call F → Call F × Result Body
  join_easy_arguments arguments c = joined c (R.join arguments (enter_native c.easy))

  -- The form is taken off the handle afterwards only if it was put there.
  abbrev pub form_performed : Bool → Call F × Result Value → Call F × Result Value
  form_performed clear (c, r) = (
    record c { httppost = F.no_form; customrequest = if clear then none else c.customrequest },
    r,
  )

  abbrev pub form_refused : Bool → Call F → Call F
  form_refused clear c = record c { customrequest = if clear then none else c.customrequest }

  unfoldable pub perform_multipart :
      (clear_customrequest : Bool) → List Argument → Call F → Call F × Result Value
  perform_multipart clear arguments c =
      let r = append_arguments F arguments F.no_form in
      elim r.1 [
        | raise x ↦ (form_refused clear c, raise x)
        | ok u ↦ form_performed clear (R.perform (record c { post = false; httppost = r.0 }))
      ]

  abbrev pub and_perform :
      (customrequest nobody postfields : Bool) → Call F × Result (Unit {0}) → Call F × Result Value
  and_perform customrequest nobody postfields (c, ok u) =
      restored customrequest nobody postfields (R.perform c)
  and_perform customrequest nobody postfields (c, raise x) = (c, raise x)

  abbrev pub has_text : Body → Bool
  has_text no_body = false
  has_text (text_body s) = ltb 0 (length s)
  has_text (object_body t) = false

  abbrev pub body_if_empty : Body → Call F × Result (Unit {0}) → Call F × Result (Unit {0})
  body_if_empty body (c, raise x) = (c, raise x)
  body_if_empty body (c, ok u) =
      if is_none c.easy.opts.postdata_buffer then post_body_set body c else (c, ok tt)

  -- An empty joined text leaves a body that was set before.
  abbrev pub body_set : Body → Call F → Call F × Result (Unit {0})
  body_set no_body c = (c, raise curl_error)
  body_set (text_body s) c =
      body_if_empty (text_body s)
        (if has_text (text_body s) then post_body_set (text_body s) c else (c, ok tt))
  body_set (object_body t) c = body_if_empty (object_body t) (c, ok tt)

  abbrev pub joined_body : Call F × Result Body → Call F × Result (Unit {0})
  joined_body (c, ok body) = body_set body c
  joined_body (c, raise x) = (c, raise x)

  -- easy.http_post(*arguments)
  unfoldable pub perform_post : List Argument → Call F → Call F × Result Value
  perform_post arguments c =
      let c1 = record (clear_error_buffer c) { customrequest = none } in
      if c1.easy.multipart_form_post
      then perform_multipart false arguments c1
      else and_perform true false false (joined_body (join_easy_arguments arguments c1))

  -- easy.http_patch(*arguments)
  unfoldable pub perform_patch : List Argument → Call F → Call F × Result Value
  perform_patch arguments c =
      let c1 = record (clear_error_buffer c) { customrequest = some (codes "PATCH") } in
      if c1.easy.multipart_form_post
      then perform_multipart true arguments c1
      else and_perform true false true (joined_body (join_easy_arguments arguments c1))

  abbrev pub put_body : Body → Call F → Call F × Result (Unit {0})
  put_body no_body c = (c, ok tt)
  put_body (text_body []) c = (c, ok tt)
  put_body (text_body (b ∷ bs)) c = put_data_set R.numbers (text_data (b ∷ bs)) c
  put_body (object_body t) c = (c, ok tt)

  abbrev pub put_joined : Call F × Result Body → Call F × Result (Unit {0})
  put_joined (c, ok body) = put_body body c
  put_joined (c, raise x) = (c, raise x)

  abbrev pub put_data : PutData → Call F → Call F × Result Value
  put_data body c = and_perform true false false (put_data_set R.numbers body c)

  abbrev pub put_other : List Argument → Call F → Call F × Result Value
  put_other arguments c =
      if c.easy.multipart_form_post
      then perform_multipart true arguments c
      else and_perform true false false (put_joined (join_easy_arguments arguments c))

  -- easy.http_put(*arguments)
  abbrev pub put_arguments : List Argument → Call F → Call F × Result Value
  put_arguments [] c = put_data (text_data []) c
  put_arguments (text s ∷ []) c = put_data (text_data s) c
  put_arguments (reader s ∷ []) c = put_data (stream_data s) c
  put_arguments arguments c = put_other arguments c

  unfoldable pub perform_put : List Argument → Call F → Call F × Result Value
  perform_put arguments c =
      put_arguments arguments (record (clear_error_buffer c) { customrequest = some (codes "PUT") })
