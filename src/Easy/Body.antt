-- ===== src/Easy/Body.antt =====
-- The write callbacks of ext/curb_easy.c. A chunk is the size * nmemb bytes that libcurl hands over.
pub mod Limit
use curb.Base.{
  ℕ, zero, suc, ◌+◌, ◌-◌, ◌*◌, ◌^◌, ◌%◌, ◌≡◌, ◌≤◌, ◌<◌, refl, ◌⊎◌, inl, inr, Bool, true, false,
  ◌&&◌, Option, none, some, List, [], ◌∷◌, ◌++◌, Bytes, ltb, leb, if◌then◌else◌, length, arith,
  Bool-cases, ◌==◌, is_none,
}
use curb.Base.Int.{ℤ, pos, negsuc}
use curb.Easy.{Easy, Opts}
use curb.Easy.Callbacks.{first_error, with_easy_callback_active, rescue_easy_callback}
use curb.Ruby.{
  Exn, arg_error, range_error, file_size_exceeded, Result, ok, raise, Value, nil, qfalse, str, int,
  object,
}

abbrev pub file_size_error : Easy → Easy
file_size_error e = record e {
  callback_error = some (first_error e.callback_error file_size_exceeded);
}

-- The test of a limit that is set: total > limit - downloaded, for a negative difference too.
abbrev pub over_limit : ℕ → ℕ → Easy → Easy × Bool
over_limit limit total e =
    if ltb limit (total + e.downloaded_body_bytes)
    then (file_size_error e, true)
    else (record e { downloaded_body_bytes = e.downloaded_body_bytes + total }, false)

abbrev pub limit_exceeded : Option ℤ → ℕ → Easy → Easy × Bool
limit_exceeded none total e = (e, false)
limit_exceeded (some (negsuc n)) total e = (e, false)
limit_exceeded (some (pos zero)) total e = (e, false)
limit_exceeded (some (pos (suc n))) total e = over_limit (suc n) total e

unfoldable pub body_limit_exceeded : Easy → ℕ → Easy × Bool
body_limit_exceeded e total = limit_exceeded e.opts.max_body_bytes total e

-- The buffer of a hash entry, which rb_str_buf_new starts.
abbrev pub or_empty_text : Option Bytes → Bytes
or_empty_text none = []
or_empty_text (some text) = text

abbrev pub append_body : Bytes → Easy → Easy
append_body chunk e = record e {
  opts = record (e.opts) { body_data = some (or_empty_text e.opts.body_data ++ chunk) };
}

abbrev pub body_unless : Bytes → Easy × Bool → Easy × ℕ
body_unless chunk (e, true) = (e, 0)
body_unless chunk (e, false) = (append_body chunk e, length chunk)

unfoldable pub default_body_handler : Bytes → Easy → Easy × ℕ
default_body_handler chunk e = body_unless chunk (body_limit_exceeded e (length chunk))

unfoldable pub default_header_handler : Bytes → Easy → Easy × ℕ
default_header_handler chunk e = (
  record e {
    opts = record (e.opts) { header_data = some (or_empty_text e.opts.header_data ++ chunk) };
  },
  length chunk,
)

-- FIX2LONG and NUM2LONG: a 64-bit long.
unfoldable pub num2long : ℤ → Result ℤ
num2long (pos n) = if ltb n (2 ^ 63) then ok (pos n) else raise range_error
num2long (negsuc n) = if ltb n (2 ^ 63) then ok (negsuc n) else raise range_error

-- The long as a size_t.
abbrev pub as_size : ℤ → ℕ
as_size (pos n) = n
as_size (negsuc n) = 2 ^ 64 - 1 - n

abbrev pub size_value : Result ℤ → Result Value
size_value (ok z) = ok (int (pos (as_size z)))
size_value (raise x) = raise x

-- The switch of proc_data_handler on what the block gave, as ULONG2NUM wraps it.
abbrev pub procret_size : ℕ → Result Value → Result Value
procret_size total (ok (int z)) = size_value (num2long z)
procret_size total (ok nil) = ok (int (pos total))
procret_size total (ok qfalse) = ok (int (pos total))
procret_size total (ok (str s)) = ok (int (pos total))
procret_size total (ok (object o)) = ok (int (pos total))
procret_size total (raise x) = raise x

-- Qfalse, Qnil, or the size_t that procret_size wrapped.
abbrev pub num2ulong : Value → ℕ
num2ulong (int (pos n)) = n
num2ulong (int (negsuc n)) = 2 ^ 64 - 1 - n
num2ulong nil = 0
num2ulong qfalse = 0
num2ulong (str s) = 0
num2ulong (object o) = 0

-- `call` is proc.call(chunk), for whatever stands in the hash as the proc.
module _ (call : Option ℕ → Bytes → Easy → Easy × Result Value) where
  unfoldable pub proc_data_handler : Option ℕ → Bytes → Easy → Easy × Result Value
  proc_data_handler proc chunk e =
      let r = call proc chunk e in (r.0, procret_size (length chunk) r.1)

  unfoldable pub proc_data_handler_header : Bytes → Easy → Easy × ℕ
  proc_data_handler_header chunk e =
      let r = rescue_easy_callback (proc_data_handler e.opts.header_proc chunk) e in
      (r.0, num2ulong r.1)

  abbrev pub body_proc_unless : Option ℕ → Bytes → Easy × Bool → Easy × ℕ
  body_proc_unless proc chunk (e, true) = (e, 0)
  body_proc_unless proc chunk (e, false) =
      let r = rescue_easy_callback (proc_data_handler proc chunk) e in (r.0, num2ulong r.1)

  unfoldable pub proc_data_handler_body : Bytes → Easy → Easy × ℕ
  proc_data_handler_body chunk e =
      body_proc_unless e.opts.body_proc chunk (body_limit_exceeded e (length chunk))

-- callback_exception gives Qfalse and stores nothing. `call` is proc.call with the four counts.
abbrev pub rescued_silently : Easy × Result Value → Easy × Value
rescued_silently (e, ok value) = (e, value)
rescued_silently (e, raise x) = (e, qfalse)

abbrev pub progress_result : Value → ℤ
progress_result nil = negsuc 0
progress_result qfalse = negsuc 0
progress_result (str s) = pos 0
progress_result (int z) = pos 0
progress_result (object o) = pos 0

unfoldable pub proc_xferinfo_handler :
    (ℕ → List ℤ → Easy → Easy × Result Value) → (dltotal dlnow ultotal ulnow : ℤ) → Easy → Easy × ℤ
proc_xferinfo_handler call dltotal dlnow ultotal ulnow e = elim e.opts.progress_proc [
  | none ↦ (e, pos 0)
  | some proc ↦
      let r =
        rescued_silently
          (with_easy_callback_active (call proc (dltotal ∷ dlnow ∷ ultotal ∷ ulnow ∷ [])) e) in
      (r.0, progress_result r.1)
]

abbrev pub set_max_body_bytes : Option ℤ → Easy → Easy
set_max_body_bytes limit e = record e { opts = record (e.opts) { max_body_bytes = limit } }

-- The three cases of a limit that is a long long.
abbrev pub checked_limit : ℤ → Easy → Easy × Result (Option ℤ)
checked_limit (negsuc n) e = (e, raise arg_error)
checked_limit (pos zero) e = (set_max_body_bytes none e, ok (some (pos 0)))
checked_limit (pos (suc n)) e = (set_max_body_bytes (some (pos (suc n))) e, ok (some (pos (suc n))))

unfoldable pub max_body_bytes_set : Easy → Option ℤ → Easy × Result (Option ℤ)
max_body_bytes_set e none = (set_max_body_bytes none e, ok none)
max_body_bytes_set e (some val) = elim (num2long val) [
  | raise x ↦ (e, raise x)
  | ok limit ↦ checked_limit limit e
]
