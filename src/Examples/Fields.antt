-- ===== src/Examples/Fields.antt =====
-- The theorems of fields of a form at concrete inputs (ext/curb_postfield.c).
use curb.Base.{
  ◌+◌, ◌-◌, ltb, true, none, some, List, [], ◌∷◌, if◌then◌else◌, ◌≡◌, refl, Bytes, codes,
}
use curb.PostField.{PostField, content_field, FormOption, Forms, append_to_form}
use curb.PostField.Part.{Given, field_of, part_options, sent, append-part}
use curb.PostField.Text.{Texts, to_str}
use curb.Ruby.{type_error, nil, str, ok, raise}

-- A file whose text a proc supplies.
abbrev report : Given
report = record {
  name = some (codes "report");
  content = none;
  content_type = some (codes "text/csv");
  proc = some 2;
  supplied = codes "a,b";
  local_file = none;
  remote_file = some (codes "r.csv");
  buffer = none;
}

abbrev pub forms : Forms
forms = record {
  Form = List (List FormOption);
  no_form = [];
  formadd = λ form options. (options ∷ form, 0);
  to_str = λ n. raise type_error;
  call = λ proc f. (f, ok (str (codes "a,b")));
}

append-part_example :
    let r = append_to_form forms (field_of report) [] in
    (r.1, r.2) ≡ sent forms [] (part_options report)
append-part_example = append-part forms report [] (λ proc. refl)

-- An escaping that leaves out the equals sign, and its inverse.
abbrev shift : Bytes → Bytes
shift [] = []
shift (b ∷ bs) = (if ltb b 61 then b else b + 1) ∷ shift bs

abbrev unshift : Bytes → Bytes
unshift [] = []
unshift (b ∷ bs) = (if ltb b 61 then b else b - 1) ∷ unshift bs

abbrev texts : Texts
texts = record {
  call = λ proc f. (f, ok nil);
  to_s = λ v. some (ok []);
  utf8 = λ s. s;
  easy_init = true;
  escape = λ s. some (shift s);
}

abbrev sum : PostField
sum = content_field (str (codes "a=b")) (str (codes "1+1=2")) nil none
