-- ===== src/PostField/Text.antt =====
-- A field as text, for posts that are not multipart: to_str of ext/curb_postfield.c, as built with
-- curl_easy_escape, and the reading of that text.
use curb.Base.{
  ℕ, Bool, false, not, Option, none, some, [], ◌∷◌, ◌++◌, ◌==◌, Bytes, All, if◌then◌else◌, ◌≡◌,
}
use curb.Ruby.{
  invalid_post_field, runtime_error, Value, nil, qfalse, str, int, object, Result, ok, raise,
}
use curb.PostField.{PostField, is_nil}

-- Ruby and libcurl, as far as the text needs them: a proc's call with the field; to_s of what is no
-- String, if it has one; rb_str_export_to_enc to UTF-8; whether curl_easy_init gives a handle; and
-- curl_easy_escape, which gives a C string or NULL.
pub record Texts : Type 0 where
  pub call : ℕ → PostField → PostField × Result Value
  pub to_s : Value → Option (Result Bytes)
  pub utf8 : Bytes → Bytes
  pub easy_init : Bool
  pub escape : Bytes → Option Bytes

module _ (T : Texts) where
  abbrev pub converted : Option (Result Bytes) → Result Bytes → Result Bytes
  converted none missing = missing
  converted (some text) missing = text

  abbrev pub name_text : Value → Result Bytes
  name_text nil = raise invalid_post_field
  name_text (str s) = ok s
  name_text qfalse = converted (T.to_s qfalse) (raise invalid_post_field)
  name_text (int n) = converted (T.to_s (int n)) (raise invalid_post_field)
  name_text (object n) = converted (T.to_s (object n)) (raise invalid_post_field)

  abbrev pub content_text : Value → Result Bytes
  content_text (str s) = ok s
  content_text nil = converted (T.to_s nil) (raise runtime_error)
  content_text qfalse = converted (T.to_s qfalse) (raise runtime_error)
  content_text (int n) = converted (T.to_s (int n)) (raise runtime_error)
  content_text (object n) = converted (T.to_s (object n)) (raise runtime_error)

  abbrev pub escaped : Bytes → Result Bytes
  escaped s = elim (T.escape (T.utf8 s)) [ none ↦ raise invalid_post_field | some t ↦ ok t ]

  abbrev pub escaped_name : Result Bytes → Result Bytes
  escaped_name (ok s) = if T.easy_init then escaped s else raise invalid_post_field
  escaped_name (raise x) = raise x

  -- The proc's result, or the first of content, local_file and remote_file that is not nil.
  abbrev pub text_source : PostField → PostField × Result Value
  text_source f = elim f.content_proc [
    | some proc ↦ T.call proc f
    | none ↦ (
      f,
      ok (
          if not (is_nil f.content)
          then f.content
          else if not (is_nil f.local_file)
          then f.local_file
          else if not (is_nil f.remote_file)
          then f.remote_file
          else str []),
    )
  ]

  abbrev pub joined : Bytes → Result Bytes → Result Bytes
  joined name (ok content) = ok (name ++ 61 ∷ content)
  joined name (raise x) = raise x

  abbrev pub escaped_content : Result Bytes → Result Bytes
  escaped_content (ok s) = escaped s
  escaped_content (raise x) = raise x

  abbrev pub with_content : Bytes → PostField × Result Value → PostField × Result Bytes
  with_content name (f, ok v) = (f, joined name (escaped_content (content_text v)))
  with_content name (f, raise x) = (f, raise x)

  abbrev pub with_name : PostField → Result Bytes → PostField × Result Bytes
  with_name f (ok name) = with_content name (text_source f)
  with_name f (raise x) = (f, raise x)

  unfoldable pub to_str : PostField → PostField × Result Bytes
  to_str f = with_name f (escaped_name (name_text f.name))

-- Reading "name=content" back: the parts at the first "=".
abbrev pub before_equals : Bytes → Bytes
before_equals [] = []
before_equals (b ∷ bs) = if b == 61 then [] else b ∷ before_equals bs

abbrev pub after_equals : Bytes → Bytes
after_equals [] = []
after_equals (b ∷ bs) = if b == 61 then bs else after_equals bs

abbrev pub NoEquals : Bytes → Type 0
NoEquals = All (λ b. (b == 61) ≡ false)
