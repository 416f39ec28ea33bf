-- ===== src/Easy/Accessors/Last.antt =====
-- Any calls of the setters of ext/curb_easy.c that keep what they are given, and what is read afterwards.
use curb.Base.{ℕ, ◌==◌, Bool, Option, List, [], ◌∷◌, Bytes, if◌then◌else◌}
use curb.Easy.{Easy}
use curb.Easy.Accessors.Flags.{flag_set, flag_index, truth, Flag}
use curb.Easy.Accessors.Handlers.{handler_set, handler_index, Handler}
use curb.Easy.Accessors.Texts.{text_set, text_index, Text}
use curb.Ruby.{Value}

-- A call of one of the setters.
pub data Call : Type 0 where
  flag_call : Flag → Value → Call
  handler_call : Handler → (block : Option ℕ) → Call
  text_call : Text → Option Bytes → Call

abbrev pub called : Call → Easy → Easy
called (flag_call f v) e = (flag_set f v e).0
called (handler_call h block) e = (handler_set h block e).0
called (text_call t text) e = (text_set t text e).0

abbrev pub all_called : List Call → Easy → Easy
all_called [] e = e
all_called (call ∷ calls) e = all_called calls (called call e)

-- The last value that the calls give, or the one before.
abbrev pub flag_given : Flag → Call → Bool → Bool
flag_given f (flag_call g v) now = if flag_index f == flag_index g then truth v else now
flag_given f (handler_call h block) now = now
flag_given f (text_call t text) now = now

abbrev pub handler_given : Handler → Call → Option ℕ → Option ℕ
handler_given h (flag_call g v) now = now
handler_given h (handler_call g block) now =
    if handler_index h == handler_index g then block else now
handler_given h (text_call t text) now = now

abbrev pub text_given : Text → Call → Option Bytes → Option Bytes
text_given t (flag_call g v) now = now
text_given t (handler_call g block) now = now
text_given t (text_call u text) now = if text_index t == text_index u then text else now

abbrev pub last_given {ℓ} : {A : Type ℓ} → (Call → A → A) → List Call → A → A
last_given given [] now = now
last_given given (call ∷ calls) now = last_given given calls (given call now)
