-- ===== src/PostField.antt =====
-- Curl::PostField: ruby_curl_postfield of ext/curb_postfield.h and the methods of
-- ext/curb_postfield.c. A field that is Qnil is `nil`. StringValuePtr also leaves the String that it
-- makes in the place of an object that is none, which is left out.
pub mod Part
pub mod Text
use curb.Base.{
  ℕ, Bool, true, false, ◌||◌, not, Option, none, some, List, [], ◌∷◌, ◌++◌, ◌==◌, Bytes,
  if◌then◌else◌, length,
}
use curb.Ruby.{
  Exn, arg_error, type_error, invalid_post_field, runtime_error, Value, nil, qfalse, str, int,
  object, Result, ok, raise, ◌>>=◌,
}

pub record PostField : Type 0 where
  pub name : Value
  pub content : Value
  pub content_type : Value
  pub content_proc : Option ℕ
  pub local_file : Value
  pub remote_file : Value
  pub buffer_str : Value

abbrev pub is_nil : Value → Bool
is_nil nil = true
is_nil _ = false

-- Curl::PostField.content(name, content, content_type) { ... }: with a block the second argument is
-- the content type.
abbrev pub content_field : Value → Value → Value → Option ℕ → PostField
content_field name content content_type proc = record {
  name = name;
  content = content;
  content_type = content_type;
  content_proc = proc;
  local_file = nil;
  remote_file = nil;
  buffer_str = nil;
}

unfoldable pub new_content : Value → Value → Value → Option ℕ → Result PostField
new_content name content content_type (some proc) =
    ok (content_field name nil (if is_nil content then nil else content) (some proc))
new_content name content content_type none =
    if is_nil content then raise arg_error else ok (content_field name content content_type none)

-- Curl::PostField.file(name, local_file, remote_file) { ... }: with a block the second argument is
-- the remote name, unless there is a third.
abbrev pub file_field : Value → Value → Value → Option ℕ → PostField
file_field name local_file remote_file proc = record {
  name = name;
  content = nil;
  content_type = nil;
  content_proc = proc;
  local_file = local_file;
  remote_file = remote_file;
  buffer_str = nil;
}

abbrev pub or_else : Value → Value → Value
or_else first second = if is_nil first then second else first

unfoldable pub new_file : Value → Value → Value → Option ℕ → PostField
new_file name local_file remote_file (some proc) =
    if is_nil local_file
    then file_field name nil remote_file (some proc)
    else file_field name nil (or_else remote_file local_file) (some proc)
new_file name local_file remote_file none =
    file_field name local_file (or_else remote_file local_file) none

-- The setters of values give their argument, and that of the proc the old proc.
unfoldable pub name_set : Value → PostField → PostField × Value
name_set v f = (record f { name = v }, v)

unfoldable pub content_set : Value → PostField → PostField × Value
content_set v f = (record f { content = v }, v)

unfoldable pub content_type_set : Value → PostField → PostField × Value
content_type_set v f = (record f { content_type = v }, v)

unfoldable pub local_file_set : Value → PostField → PostField × Value
local_file_set v f = (record f { local_file = v }, v)

unfoldable pub remote_file_set : Value → PostField → PostField × Value
remote_file_set v f = (record f { remote_file = v }, v)

unfoldable pub content_proc_set : Option ℕ → PostField → PostField × Option ℕ
content_proc_set proc f = (record f { content_proc = proc }, f.content_proc)

-- The options of curl_formadd.
pub data FormOption : Type 0 where
  ptrname buffer bufferptr contenttype file filename ptrcontents : Bytes → FormOption
  bufferlength contentslength : ℕ → FormOption

-- Ruby and libcurl, as far as a field needs them: a proc's call with the field, which may change the
-- field; an object's to_str; curl_formadd on a form, with its
-- CURLFORMcode; and the form that is NULL.
pub record Forms : Type 1 where
  pub Form : Type 0
  pub no_form : Form
  pub formadd : Form → List FormOption → Form × ℕ
  pub to_str : ℕ → Result Bytes
  pub call : ℕ → PostField → PostField × Result Value

-- An argument that is a String, and the options it makes.
abbrev pub Slot : Type 0
Slot = (Bytes → List FormOption) × Value

abbrev pub name_slot : PostField → Slot
name_slot f = (λ s. ptrname s ∷ [], f.name)

abbrev pub type_slots : Value → List Slot
type_slots v = if is_nil v then [] else (λ s. contenttype s ∷ [], v) ∷ []

module _ (F : Forms) where
  -- StringValuePtr
  abbrev pub string_value : Value → Result Bytes
  string_value (str s) = ok s
  string_value (object n) = F.to_str n
  string_value nil = raise type_error
  string_value qfalse = raise type_error
  string_value (int n) = raise type_error

  abbrev pub Appended : Type 0
  Appended = PostField × F.Form × Result (Unit {0})

  -- The Strings are taken from left to right.
  abbrev pub options_of : List Slot → Result (List FormOption)
  options_of [] = ok []
  options_of ((make, v) ∷ slots) =
      string_value v >>= λ s. options_of slots >>= λ options. ok (make s ++ options)

  abbrev pub added : PostField → F.Form × ℕ → Appended
  added f (form, code) = (f, form, if code == 0 then ok tt else raise invalid_post_field)

  abbrev pub add_options : PostField → F.Form → Result (List FormOption) → Appended
  add_options f form (ok options) = added f (F.formadd form options)
  add_options f form (raise x) = (f, form, raise x)

  abbrev pub add_slots : PostField → F.Form → List Slot → Appended
  add_slots f form slots = add_options f form (options_of (slots ++ type_slots f.content_type))

  -- A file upload whose body are in memory.
  abbrev pub add_buffer : PostField → F.Form → Value → Appended
  add_buffer f form body =
      if is_nil f.remote_file
      then (f, form, raise invalid_post_field)
      else add_slots f form (
          name_slot f
          ∷ (λ s. buffer s ∷ [], f.remote_file)
          ∷ (λ s. bufferptr s ∷ bufferlength (length s) ∷ [], body)
          ∷ [])

  -- A file upload that libcurl reads.
  abbrev pub add_file : PostField → F.Form → Appended
  add_file f form =
      let f' = if is_nil f.remote_file then record f { remote_file = f.local_file } else f in
      add_slots f' form (
        name_slot f'
        ∷ (λ s. file s ∷ [], f'.local_file)
        ∷ (λ s. filename s ∷ [], f'.remote_file)
        ∷ [])

  abbrev pub add_contents : PostField → F.Form → Value → Appended
  add_contents f form body =
      add_slots f form
        (name_slot f ∷ (λ s. ptrcontents s ∷ contentslength (length s) ∷ [], body) ∷ [])

  -- The proc's result is kept in the field before anything is done with it.
  abbrev pub with_buffer :
      F.Form → (PostField → F.Form → Value → Appended) → PostField × Result Value → Appended
  with_buffer form add (f, ok v) = add (record f { buffer_str = v }) form v
  with_buffer form add (f, raise x) = (f, form, raise x)

  abbrev pub append_upload : PostField → F.Form → Option ℕ → Appended
  append_upload f form (some proc) = with_buffer form add_buffer (F.call proc f)
  append_upload f form none =
      if not (is_nil f.content)
      then add_buffer f form f.content
      else if not (is_nil f.local_file)
      then add_file f form
      else (f, form, raise invalid_post_field)

  abbrev pub append_content : PostField → F.Form → Option ℕ → Appended
  append_content f form (some proc) = with_buffer form add_contents (F.call proc f)
  append_content f form none =
      if not (is_nil f.content)
      then add_contents f form f.content
      else (f, form, raise invalid_post_field)

  unfoldable pub append_to_form : PostField → F.Form → Appended
  append_to_form f form =
      if is_nil f.name
      then (f, form, raise invalid_post_field)
      else if not (is_nil f.local_file) || not (is_nil f.remote_file)
      then append_upload f form f.content_proc
      else append_content f form f.content_proc
