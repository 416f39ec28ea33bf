-- ===== src/Examples/Request.antt =====
-- The theorems of requests and of the setup at concrete inputs (ext/curb_easy.c).
use curb.Base.{true, false, none, some, List, [], ◌∷◌, if◌then◌else◌, ◌≡◌, refl, ◌⊎◌, codes}
use curb.Base.Int.{pos}
use curb.Easy.{header_hash}
use curb.Examples.State.{fresh}
use curb.Examples.Fields.{forms}
use curb.Request.{Call, perform_verb_str}
use curb.Request.Perform.{Ruby, Argument, text, perform_post, perform_patch}
use curb.Request.PutData.{PutData, stream_data, stat_size, put_data_set, sized, stream_size}
use curb.Request.PutData.Raised.{ExpectLeft, SizeLeft, put_data_set-raise}
use curb.Request.Restored.{requests-customrequest, went_well, joining, as_patch}
use curb.Ruby.{range_error, raised_by_user, int, ok, raise}

abbrev pub a_call : Call forms
a_call = record {
  easy = record fresh { opts = record (fresh.opts) { headers = header_hash [] } };
  customrequest = none;
  nobody = false;
  httpget = true;
  post = false;
  postfields = none;
  postfieldsize = 0;
  httppost = [];
  upload = false;
  read_function = false;
  seek_function = false;
  infilesize = none;
}

-- A transfer that sets a verb and raises, and arguments that cannot be joined.
abbrev unruly : Ruby forms
unruly = record {
  perform = λ c. (record c { customrequest = some (codes "PURGE") }, raise (raised_by_user 1));
  join = λ arguments e. (e, raise (raised_by_user 2));
  numbers = record { to_i = λ v. ok (int (pos 7)); object_long = λ o. raise range_error };
}

abbrev some_text : List Argument
some_text = text (codes "a=1") ∷ []

requests-customrequest_example :
    ((perform_verb_str unruly.perform (codes "Head") a_call).0.customrequest ≡ none)
    × (a_call.easy.multipart_form_post ≡ false
        → (perform_post unruly some_text a_call).0.customrequest ≡ none)
    × (a_call.easy.multipart_form_post ≡ true
        → (perform_patch unruly some_text a_call).0.customrequest ≡ none)
    × (a_call.easy.multipart_form_post ≡ false
        → (perform_patch unruly some_text a_call).0.customrequest ≡ (
            if went_well (joining unruly some_text (as_patch a_call)).1
            then none
            else some (codes "PATCH")))
requests-customrequest_example = requests-customrequest unruly (codes "Head") some_text a_call

-- A stream whose size cannot be had.
abbrev shy : PutData
shy = stream_data (record { stream = 3; stat = stat_size (raise (raised_by_user 4)) })

put_data_set-raise_example :
    ((put_data_set unruly.numbers shy a_call).0 ≡ a_call)
    ⊎ (ExpectLeft unruly.numbers shy
          (raised_by_user 4)
          a_call
          (put_data_set unruly.numbers shy a_call).0
        ⊎ SizeLeft unruly.numbers
            (raised_by_user 4)
            a_call
            (put_data_set unruly.numbers shy a_call).0)
unfolding put_data_set sized stream_size
put_data_set-raise_example = put_data_set-raise unruly.numbers shy a_call (raised_by_user 4) refl
