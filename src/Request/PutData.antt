-- ===== src/Request/PutData.antt =====
-- The data of a PUT: easy.put_data= of ext/curb_easy.c. The methods of the data may raise; that they
-- change the easy meanwhile is not followed, and no Hash is frozen.
pub mod Sizes
pub mod Raised
use curb.Base.{
  ℕ, true, false, ◌&&◌, Option, none, some, List, [], ◌∷◌, Bytes, bytes_eq, codes, if◌then◌else◌,
  length,
}
use curb.Base.Int.{ℤ, pos}
use curb.Easy.{Headers, no_headers, header_hash, header_array, header_string}
use curb.Easy.Body.{num2long}
use curb.PostField.{Forms, is_nil}
use curb.Request.{Call}
use curb.Ruby.{
  Exn, runtime_error, type_error, Value, nil, qfalse, str, int, object, Result, ok, raise,
}

-- What `stat` of a stream gives: there is no such method; it raises; it gives nil or false; or an object,
-- with what its `size` gives.
pub data Stat : Type 0 where
  no_stat nil_stat : Stat
  stat_raises : Exn → Stat
  stat_size : Result Value → Stat

-- An object that responds to `read`.
pub record Stream : Type 0 where
  pub stream : ℕ
  pub stat : Stat

-- The data: nil, a stream, a String, or another object with what rb_obj_as_string makes of it, if it has
-- a to_s.
pub data PutData : Type 0 where
  no_data : PutData
  stream_data : Stream → PutData
  text_data : Bytes → PutData
  object_data : Option (Result Bytes) → PutData

-- The conversions of Ruby: `to_i` of a value that is not nil, and NUM2LONG of an object that is neither
-- nil, a Boolean, a String nor an Integer.
pub record Numbers : Type 0 where
  pub to_i : Value → Result Value
  pub object_long : ℕ → Result ℤ

-- rb_hash_aref and rb_hash_aset on a Hash of headers
abbrev pub header : List (Bytes × Value) → Bytes → Value
header [] key = nil
header ((k, v) ∷ headers) key = if bytes_eq k key then v else header headers key

abbrev pub set_header : List (Bytes × Value) → Bytes → Value → List (Bytes × Value)
set_header [] key value = (key, value) ∷ []
set_header ((k, v) ∷ headers) key value =
    if bytes_eq k key then (k, value) ∷ headers else (k, v) ∷ set_header headers key value

abbrev pub content_length : Bytes
content_length = codes "Content-Length"

abbrev pub transfer_encoding : Bytes
transfer_encoding = codes "Transfer-Encoding"

abbrev pub expect : Bytes
expect = codes "Expect"

abbrev pub default_expect : List (Bytes × Value) → List (Bytes × Value)
default_expect headers =
    if is_nil (header headers expect) then set_header headers expect (str []) else headers

-- The Hash of headers; an Array or a String is refused.
abbrev pub hash_of : Headers → Option (List (Bytes × Value))
hash_of no_headers = some []
hash_of (header_hash headers) = some headers
hash_of (header_array items) = none
hash_of (header_string text) = none

-- What libcurl is to read.
abbrev pub upload_stream : PutData → Result Value
upload_stream no_data = ok nil
upload_stream (stream_data s) = ok (object s.stream)
upload_stream (text_data text) = ok (str text)
upload_stream (object_data none) = raise runtime_error
upload_stream (object_data (some (ok text))) = ok (str text)
upload_stream (object_data (some (raise x))) = raise x

-- The Hash of headers, changed in place, and infile_size, or what is raised.
abbrev pub Sized : Type 0
Sized = List (Bytes × Value) × Result Value

module _ (N : Numbers) where
  -- NUM2LONG
  abbrev pub long_of : Value → Result ℤ
  long_of nil = raise type_error
  long_of qfalse = raise type_error
  long_of (str s) = raise type_error
  long_of (int z) = num2long z
  long_of (object o) = N.object_long o

  -- infile_size of a Content-Length: a VALUE tested as a C truth value, which only Qfalse fails; nil.to_i
  -- is 0.
  abbrev pub length_header_size : Value → Result Value
  length_header_size nil = ok (int (pos 0))
  length_header_size qfalse = ok nil
  length_header_size (str s) = N.to_i (str s)
  length_header_size (int z) = N.to_i (int z)
  length_header_size (object o) = N.to_i (object o)

  -- Where nothing is known of the size but the headers.
  abbrev pub header_size : List (Bytes × Value) → Sized
  header_size headers =
      if is_nil (header headers content_length) && is_nil (header headers transfer_encoding)
      then (set_header headers transfer_encoding (str (codes "chunked")), ok nil)
      else (headers, length_header_size (header headers content_length))

  -- Expect is set before `size` is called.
  unfoldable pub stream_size : Stat → List (Bytes × Value) → Sized
  stream_size no_stat headers = header_size headers
  stream_size nil_stat headers = header_size headers
  stream_size (stat_raises x) headers = (headers, raise x)
  stream_size (stat_size size) headers =
      if is_nil (header headers content_length)
      then (default_expect headers, size)
      else header_size headers

  abbrev pub text_size : Bytes → List (Bytes × Value) → Sized
  text_size text headers = (default_expect headers, ok (int (pos (length text))))

  -- An object whose text cannot be had has raised before.
  unfoldable pub sized : PutData → List (Bytes × Value) → Sized
  sized no_data headers = (headers, ok nil)
  sized (stream_data s) headers = stream_size s.stat headers
  sized (text_data text) headers = text_size text headers
  sized (object_data none) headers = (headers, raise runtime_error)
  sized (object_data (some (ok text))) headers = text_size text headers
  sized (object_data (some (raise x))) headers = (headers, raise x)

  module _ {F : Forms} where
    -- The Hash that the easy has is changed; a new one, made where there was nil, is forgotten.
    abbrev pub headers_changed : Headers → List (Bytes × Value) → Call F → Call F
    headers_changed no_headers headers c = c
    headers_changed (header_hash old) headers c = record c {
      easy = record (c.easy) { opts = record (c.easy.opts) { headers = header_hash headers } };
    }
    headers_changed (header_array items) headers c = c
    headers_changed (header_string text) headers c = c

    abbrev pub upload_set : List (Bytes × Value) → Value → Call F → Call F
    upload_set headers stream c = record c {
      easy = record (c.easy) {
        opts = record (c.easy.opts) {
          headers = header_hash headers;
          upload = some (record { stream = stream; offset = 0 });
        };
      };
      nobody = false;
      post = false;
      postfields = none;
      postfieldsize = 0;
      upload = true;
      read_function = true;
      seek_function = true;
    }

    abbrev pub infile_long : Result ℤ → Call F → Call F × Result (Unit {0})
    infile_long (raise x) c = (c, raise x)
    infile_long (ok n) c = (record c { infilesize = some n }, ok tt)

    -- NUM2LONG may raise, when all else is set; nil is no size.
    abbrev pub infile_set : Value → Call F → Call F × Result (Unit {0})
    infile_set nil c = (c, ok tt)
    infile_set qfalse c = infile_long (long_of qfalse) c
    infile_set (str s) c = infile_long (long_of (str s)) c
    infile_set (int z) c = infile_long (long_of (int z)) c
    infile_set (object o) c = infile_long (long_of (object o)) c

    abbrev pub put_sized : Value → Call F → Sized → Call F × Result (Unit {0})
    put_sized stream c (headers, raise x) = (headers_changed c.easy.opts.headers headers c, raise x)
    put_sized stream c (headers, ok size) = infile_set size (upload_set headers stream c)

    abbrev pub put_prepared :
        PutData → Call F → Option (List (Bytes × Value)) → Result Value → Call F × Result (Unit {0})
    put_prepared body c none stream = (c, raise runtime_error)
    put_prepared body c (some headers) (raise x) = (c, raise x)
    put_prepared body c (some headers) (ok stream) = put_sized stream c (sized body headers)

    -- easy.put_data = data
    unfoldable pub put_data_set : PutData → Call F → Call F × Result (Unit {0})
    put_data_set body c = put_prepared body c (hash_of c.easy.opts.headers) (upload_stream body)
