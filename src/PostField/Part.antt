-- ===== src/PostField/Part.antt =====
-- The part of a multipart form that a field stands for, described by what the field holds, and
-- append_to_form of ext/curb_postfield.c against it.
use curb.Base.{
  ℕ, Option, none, some, List, [], ◌∷◌, ◌++◌, ◌==◌, Bytes, is_some, length, if◌then◌else◌, ◌≡◌,
  arith, inl, inr, Option-cases,
}
use curb.Ruby.{invalid_post_field, Value, nil, str, Result, ok, raise}
use curb.PostField.{
  PostField, FormOption, ptrname, buffer, bufferptr, bufferlength, contenttype, file, filename,
  ptrcontents, contentslength, Forms, append_to_form,
}

-- A field that holds Strings, and what its proc gives.
pub record Given : Type 0 where
  pub name : Option Bytes
  pub content : Option Bytes
  pub content_type : Option Bytes
  pub proc : Option ℕ
  pub supplied : Bytes
  pub local_file : Option Bytes
  pub remote_file : Option Bytes
  pub buffer : Option Bytes

abbrev pub value_of : Option Bytes → Value
value_of none = nil
value_of (some s) = str s

abbrev pub field_of : Given → PostField
field_of g = record {
  name = value_of g.name;
  content = value_of g.content;
  content_type = value_of g.content_type;
  content_proc = g.proc;
  local_file = value_of g.local_file;
  remote_file = value_of g.remote_file;
  buffer_str = value_of g.buffer;
}

-- A part is plain, or a file that comes from memory or from the disk under a name.
pub data Body : Type 0 where
  plain : Bytes → Body
  memory : (name bytes : Bytes) → Body
  disk : (path name : Bytes) → Body

-- What is to be sent: the proc's text, or else the content.
abbrev pub text_of : Given → Option Bytes
text_of g = if is_some g.proc then some g.supplied else g.content

abbrev pub body_of : Option Bytes → Option Bytes → Option Bytes → Option Body
body_of (some text) none none = some (plain text)
body_of (some text) (some path) none = none
body_of (some text) path (some name) = some (memory name text)
body_of none none remote = none
body_of none (some path) none = some (disk path path)
body_of none (some path) (some name) = some (disk path name)

abbrev pub body_options : Body → List FormOption
body_options (plain text) = ptrcontents text ∷ contentslength (length text) ∷ []
body_options (memory name text) = buffer name ∷ bufferptr text ∷ bufferlength (length text) ∷ []
body_options (disk path name) = file path ∷ filename name ∷ []

abbrev pub type_options : Option Bytes → List FormOption
type_options none = []
type_options (some t) = contenttype t ∷ []

abbrev pub part_options : Given → Option (List FormOption)
part_options g = elim g.name [
  | none ↦ none
  | some name ↦ elim (body_of (text_of g) g.local_file g.remote_file) [
    | none ↦ none
    | some body ↦ some (ptrname name ∷ (body_options body ++ type_options g.content_type))
  ]
]

module _ (F : Forms) where
  abbrev pub sent : F.Form → Option (List FormOption) → F.Form × Result (Unit {0})
  sent form none = (form, raise invalid_post_field)
  sent form (some options) =
      let r = F.formadd form options in (r.0, if r.1 == 0 then ok tt else raise invalid_post_field)

  -- For a field that holds Strings or nil, and whose proc, if there is one, gives a String and leaves
  -- the field as it is, append_to_form gives libcurl the options of the part that the field stands
  -- for, with its type if it has one, and an error of curl_formadd is raised; a field that stands for
  -- no part raises and the form stays.
  pub append-part :
      (g : Given) (form : F.Form)
      → ((proc : ℕ) → F.call proc (field_of g) ≡ (field_of g, ok (str g.supplied)))
      → let r = append_to_form F (field_of g) form in (r.1, r.2) ≡ sent form (part_options g)
  unfolding append_to_form
  append-part g form gives = elim (Option-cases g.proc) [
    | inl e ↦ ground arith
    | inr (proc, e) ↦ ground (arith, gives proc)
  ]
