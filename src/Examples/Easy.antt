-- ===== src/Examples/Easy.antt =====
-- The theorems of the transfer callbacks and of the setup at concrete inputs (ext/curb_easy.c), and of
-- the exception classes (ext/curb_errors.c).
use curb.Base.{
  length, ◌≤◌, ℕ, ◌≡◌, refl, ◌⊎◌, true, false, none, some, List, [], ◌∷◌, Bytes, codes, take, drop,
  arith,
}
use curb.Base.Int.{pos}
use curb.Examples.State.{fresh}
use curb.Easy.{Easy, zero}
use curb.Easy.Callbacks.{
  Codes, callbacks_run, all_raised, earliest, take_callback_error, callbacks_run-first,
}
use curb.Easy.Body.Limit.{deliver, Delivered, deliver-Delivered}
use curb.Easy.Stream.{read_data_handler, Methods}
use curb.Easy.Stream.Fits.{read_data_handler-Fits}
use curb.Easy.Stream.Whole.{bytes_of, read_all, read_all-text}
use curb.Errors.{easy_error}
use curb.Errors.Distinct.{easy_error-Distinct}
use curb.Ruby.{raised_by_user, Result, ok, raise, Value, object, nil, str}

abbrev limited : Easy
limited = record fresh { opts = record (fresh.opts) { max_body_bytes = some (pos 4) } }

abbrev chunks : List Bytes
chunks = codes "abc" ∷ codes "de" ∷ []

deliver-Delivered_example : Delivered 4 chunks limited (deliver chunks limited)
unfolding zero
deliver-Delivered_example = deliver-Delivered 3 chunks limited refl refl (omega arith)

-- A stream that is its own string.
abbrev text_methods : Methods
text_methods = record {
  responds_to_read = λ v. false;
  responds_to_to_s = λ v. true;
  responds_to_seek = λ v. false;
  read = λ v n e. (e, ok nil);
  to_s = λ v e. (e, ok (str (codes "hello")));
  seek = λ v o w e. (e, ok nil);
}

abbrev uploading : Easy
uploading = record fresh {
  opts = record (fresh.opts) { upload = some (record { stream = object 5; offset = 1 }) };
}

read_all-text_example :
    (read_all text_methods (2 ∷ 8 ∷ []) uploading).1 ≡ take 10 (drop 1 (codes "hello"))
read_all-text_example =
    read_all-text text_methods (object 5) (codes "hello") (refl, refl, λ e. refl) (2 ∷ 8 ∷ [])
      uploading 1 refl (omega arith)

abbrev failing : Easy → Easy × Result Value
failing e = (e, raise (raised_by_user 1))

abbrev failing_too : Easy → Easy × Result Value
failing_too e = (record e { verbose = true }, raise (raised_by_user 2))

-- Two of three callbacks raise.
abbrev three_codes : Codes
three_codes = (λ e. (e, ok nil)) ∷ failing ∷ failing_too ∷ []

callbacks_run-first_example :
    let taken = take_callback_error (callbacks_run three_codes fresh) in
    (taken.1 ≡ earliest none (all_raised three_codes fresh))
    × (taken.0.callback_error ≡ none)
    × (taken.0.callback_active ≡ false)
unfolding zero
callbacks_run-first_example =
    callbacks_run-first three_codes fresh (λ e. refl, (λ e. refl, (λ e. refl, tt))) refl refl

abbrev not_found : ℕ
not_found = 68

abbrev no_such_user : ℕ
no_such_user = 74

easy_error-Distinct_example :
    (not_found ≡ no_such_user)
    ⊎ (((not_found ≡ 68) × (no_such_user ≡ 74)) ⊎ ((not_found ≡ 74) × (no_such_user ≡ 68)))
unfolding easy_error
easy_error-Distinct_example = easy_error-Distinct 68 74 (omega arith) (omega arith) refl

read_data_handler-Fits_example :
    length (bytes_of (read_data_handler text_methods 3 uploading).1) ≤ 3
read_data_handler-Fits_example = read_data_handler-Fits text_methods 3 uploading
