-- ===== src/Easy/Stream.antt =====
-- The read and seek callbacks of ext/curb_easy.c, and the upload object of ext/curb_upload.c that
-- they take the data from.
pub mod Whole
pub mod Fits
use curb.Base.{
  ℕ, suc, ◌+◌, ◌-◌, ◌*◌, ◌^◌, ◌%◌, ◌≡◌, ◌≤◌, ◌<◌, refl, ◌⊎◌, inl, inr, Bool, true, false, Option,
  none, some, List, [], ◌∷◌, ◌++◌, Bytes, codes, ltb, leb, if◌then◌else◌, length, take, drop, arith,
  Bool-cases, is_some,
}
use curb.Base.Int.{ℤ, pos, negsuc}
use curb.Easy.{Easy, Opts, Upload}
use curb.Easy.Callbacks.{rescue_easy_callback}
use curb.Easy.Body.{num2long, as_size}
use curb.Ruby.{Exn, type_error, Result, ok, raise, Value, nil, qfalse, str, int, object}

abbrev pub upload_new : Upload
upload_new = record { stream = nil; offset = 0 }

unfoldable pub upload_stream_set : Upload → Value → Upload
upload_stream_set u stream = record u { stream = stream }

unfoldable pub upload_stream_get : Upload → Value
upload_stream_get u = u.stream

abbrev pub offset_from : Upload → Result ℤ → Upload × Result (Unit {0})
offset_from u (ok z) = (record u { offset = as_size z }, ok tt)
offset_from u (raise x) = (u, raise x)

-- NUM2LONG into a size_t
unfoldable pub upload_offset_set : Upload → ℤ → Upload × Result (Unit {0})
upload_offset_set u offset = offset_from u (num2long offset)

-- LONG2NUM of the size_t
unfoldable pub upload_offset_get : Upload → ℤ
upload_offset_get u = if ltb u.offset (2 ^ 63) then pos u.offset else negsuc (2 ^ 64 - 1 - u.offset)

unfoldable pub duplicate_upload : Option Upload → Option Upload
duplicate_upload none = none
duplicate_upload (some u) = some (record { stream = u.stream; offset = u.offset })

-- StringValue; an object with to_str stands here as its string.
abbrev pub string_value : Value → Result Value
string_value (str s) = ok (str s)
string_value nil = raise type_error
string_value qfalse = raise type_error
string_value (int z) = raise type_error
string_value (object o) = raise type_error

abbrev pub call_string_value : Value → Easy → Easy × Result Value
call_string_value v e = (e, string_value v)

-- What the read callback gives: CURL_READFUNC_ABORT, or the bytes it has put into the buffer.
pub data Read : Type 0 where
  abort : Read
  copied : Bytes → Read

-- The Ruby methods of a stream.
pub record Methods : Type 0 where
  pub responds_to_read : Value → Bool
  pub responds_to_to_s : Value → Bool
  pub responds_to_seek : Value → Bool
  pub read : Value → ℕ → Easy → Easy × Result Value
  pub to_s : Value → Easy → Easy × Result Value
  pub seek : Value → ℤ → ℤ → Easy → Easy × Result Value

-- What the `read` branch does with the string that the stream gave.
abbrev pub copy_read : ℕ → Easy × Value → Easy × Read
copy_read read_bytes (e, str s) =
    if ltb read_bytes (length s)
    then (record e { err_buf = codes "read callback returned more data than requested" }, abort)
    else (e, copied s)
copy_read read_bytes (e, nil) = (e, abort)
copy_read read_bytes (e, qfalse) = (e, abort)
copy_read read_bytes (e, int z) = (e, abort)
copy_read read_bytes (e, object o) = (e, abort)

abbrev pub read_given : ℕ → Easy × Value → Easy × Read
read_given read_bytes (e, nil) = (e, copied [])
read_given read_bytes (e, qfalse) =
    copy_read read_bytes (rescue_easy_callback (call_string_value qfalse) e)
read_given read_bytes (e, str s) =
    copy_read read_bytes (rescue_easy_callback (call_string_value (str s)) e)
read_given read_bytes (e, int z) =
    copy_read read_bytes (rescue_easy_callback (call_string_value (int z)) e)
read_given read_bytes (e, object o) =
    copy_read read_bytes (rescue_easy_callback (call_string_value (object o)) e)

abbrev pub set_offset : Upload → ℕ → Easy → Easy
set_offset u offset e = record e {
  opts = record (e.opts) { upload = some (record u { offset = offset }) };
}

-- The bytes of the string from the offset on, as many as fit.
abbrev pub copy_from : Upload → ℕ → Bytes → Easy → Easy × Read
copy_from u read_bytes s e =
    if leb (length s) u.offset
    then (e, copied [])
    else if leb (length s - u.offset) read_bytes
    then (set_offset u (u.offset + (length s - u.offset)) e, copied (drop u.offset s))
    else (set_offset u (u.offset + read_bytes) e, copied (take read_bytes (drop u.offset s)))

abbrev pub copy_string : Upload → ℕ → Easy × Value → Easy × Read
copy_string u read_bytes (e, str s) = copy_from u read_bytes s e
copy_string u read_bytes (e, nil) = (e, abort)
copy_string u read_bytes (e, qfalse) = (e, abort)
copy_string u read_bytes (e, int z) = (e, abort)
copy_string u read_bytes (e, object o) = (e, abort)

module _ (m : Methods) where
  abbrev pub string_of_stream : Value → Easy → Easy × Value
  string_of_stream stream e =
      let r = rescue_easy_callback (m.to_s stream) e in
      rescue_easy_callback (call_string_value r.1) r.0

  abbrev pub read_upload : Upload → ℕ → Easy → Easy × Read
  read_upload u read_bytes e =
      if m.responds_to_read u.stream
      then read_given read_bytes (rescue_easy_callback (m.read u.stream read_bytes) e)
      else if m.responds_to_to_s u.stream
      then copy_string u read_bytes (string_of_stream u.stream e)
      else (e, copied [])

  unfoldable pub read_data_handler : ℕ → Easy → Easy × Read
  read_data_handler read_bytes e = elim e.opts.upload [
    | none ↦ (e, abort)
    | some u ↦ read_upload u read_bytes e
  ]

  -- true is CURL_SEEKFUNC_FAIL; the offset is stored as a size_t.
  unfoldable pub seek_data_handler : Easy → ℤ → ℤ → Easy × Bool
  seek_data_handler e offset origin = elim e.opts.upload [
    | none ↦ (e, true)
    | some u ↦
        if m.responds_to_seek u.stream
        then (let r = rescue_easy_callback (m.seek u.stream offset origin) e in
            (r.0, is_some r.0.callback_error))
        else (set_offset u (as_size offset) e, false)
  ]
