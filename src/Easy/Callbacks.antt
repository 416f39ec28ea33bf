-- ===== src/Easy/Callbacks.antt =====
-- How ext/curb_easy.c runs Ruby code from a libcurl callback: the flag that is set around it, and the
-- exception that is kept for later.
use curb.Base.{◌+◌, ◌-◌, ◌≡◌, refl, ◌∙◌, ap, true, false, Option, none, some, List, [], ◌∷◌, All}
use curb.Easy.{Easy}
use curb.Ruby.{Exn, Result, ok, raise, Value, qfalse}

-- The exception that is stored once another comes: it is set only where none is.
abbrev pub first_error : Option Exn → Exn → Exn
first_error none x = x
first_error (some first) x = first

unfoldable pub callback_exception_store_on_easy : Exn → Easy → Easy
callback_exception_store_on_easy x e = record e {
  callback_error = some (first_error e.callback_error x);
}

unfoldable pub take_callback_error : Easy → Easy × Option Exn
take_callback_error e = (record e { callback_error = none }, e.callback_error)

-- `func` is the Ruby code, with all it may do to the easy; rb_ensure clears the flag in any case.
unfoldable pub with_easy_callback_active : (Easy → Easy × Result Value) → Easy → Easy × Result Value
with_easy_callback_active func e =
    let r = func (record e { callback_active = true }) in
    (record (r.0) { callback_active = false }, r.1)

-- An exception is stored, and Qfalse given.
abbrev pub rescued : Easy × Result Value → Easy × Value
rescued (e, ok value) = (e, value)
rescued (e, raise x) = (callback_exception_store_on_easy x e, qfalse)

unfoldable pub rescue_easy_callback : (Easy → Easy × Result Value) → Easy → Easy × Value
rescue_easy_callback func e = rescued (with_easy_callback_active func e)

unfoldable pub enter_native : Easy → Easy
enter_native e = record e { native_active = e.native_active + 1 }

-- On ℕ the subtraction leaves 0 as it is, as the guard of the source does.
unfoldable pub leave_native : Easy → Easy
leave_native e = record e { native_active = e.native_active - 1 }

-- What Ruby code run in a callback raises.
abbrev pub raised_by : Result Value → List Exn → List Exn
raised_by (ok v) rest = rest
raised_by (raise x) rest = x ∷ rest

-- Callbacks one after the other, each with its Ruby code, and all that they raise, in order.
abbrev pub Codes : Type 0
Codes = List (Easy → Easy × Result Value)

abbrev pub callbacks_run : Codes → Easy → Easy
callbacks_run [] e = e
callbacks_run (func ∷ funcs) e = callbacks_run funcs (rescue_easy_callback func e).0

abbrev pub all_raised : Codes → Easy → List Exn
all_raised [] e = []
all_raised (func ∷ funcs) e =
    raised_by (func (record e { callback_active = true })).1
      (all_raised funcs (rescue_easy_callback func e).0)

abbrev pub earliest : Option Exn → List Exn → Option Exn
earliest (some x) later = some x
earliest none [] = none
earliest none (x ∷ later) = some x

-- Ruby code cannot reach the stored exception.
abbrev pub LeavesError : (Easy → Easy × Result Value) → Type 0
LeavesError func = (e : Easy) → (func e).0.callback_error ≡ e.callback_error

rescued-error :
    (kept : Option Exn) (r : Easy × Result Value) (later : List Exn)
    → r.0.callback_error ≡ kept
    → earliest (rescued (record (r.0) { callback_active = false }, r.1)).0.callback_error later
      ≡ earliest kept (raised_by r.1 later)
unfolding callback_exception_store_on_easy
rescued-error kept (e, ok v) later same = rw same refl
rescued-error none (e, raise x) later same = rw same refl
rescued-error (some first) (e, raise x) later same = rw same refl

callbacks_run-error :
    (funcs : Codes) (e : Easy)
    → All LeavesError funcs
    → (callbacks_run funcs e).callback_error ≡ earliest e.callback_error (all_raised funcs e)
unfolding rescue_easy_callback with_easy_callback_active
callbacks_run-error [] e leave = same e.callback_error
  where
    same : (kept : Option Exn) → kept ≡ earliest kept []
    same none = refl
    same (some x) = refl
callbacks_run-error (func ∷ funcs) e leave =
    callbacks_run-error funcs (rescue_easy_callback func e).0 leave.1
    ∙ rescued-error e.callback_error (func (record e { callback_active = true }))
        (all_raised funcs (rescue_easy_callback func e).0)
        (leave.0 (record e { callback_active = true }))

rescued-inactive :
    (r : Easy × Result Value)
    → (rescued (record (r.0) { callback_active = false }, r.1)).0.callback_active ≡ false
unfolding callback_exception_store_on_easy
rescued-inactive (e, ok v) = refl
rescued-inactive (e, raise x) = refl

callbacks_run-inactive :
    (funcs : Codes) (e : Easy)
    → e.callback_active ≡ false
    → (callbacks_run funcs e).callback_active ≡ false
unfolding rescue_easy_callback with_easy_callback_active
callbacks_run-inactive [] e idle = idle
callbacks_run-inactive (func ∷ funcs) e idle =
    callbacks_run-inactive funcs (rescue_easy_callback func e).0
      (rescued-inactive (func (record e { callback_active = true })))

-- After any callbacks on an easy that is in none and has no exception stored, whatever their Ruby code
-- does but reach the stored exception, the active flag is clear; the exception that is then taken for
-- the caller is the first one raised in all of them, if any was, and none is left stored.
pub callbacks_run-first :
    (funcs : Codes) (e : Easy)
    → All LeavesError funcs
    → e.callback_active ≡ false
    → e.callback_error ≡ none
    → let taken = take_callback_error (callbacks_run funcs e) in
      (taken.1 ≡ earliest none (all_raised funcs e))
      × (taken.0.callback_error ≡ none)
      × (taken.0.callback_active ≡ false)
unfolding take_callback_error
callbacks_run-first funcs e leave idle clear = (
  callbacks_run-error funcs e leave ∙ ap (λ kept. earliest kept (all_raised funcs e)) clear,
  refl,
  callbacks_run-inactive funcs e idle,
)
