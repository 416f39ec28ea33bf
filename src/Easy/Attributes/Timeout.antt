-- ===== src/Easy/Attributes/Timeout.antt =====
-- easy.timeout_ms of ext/curb_easy.c, for nil and Integers.
use curb.Base.{ℕ, ◌≡◌, ◌^◌, ◌<◌, ◌==◌, ◌↔◌, ltb, Option, none, some, if◌then◌else◌, arith}
use curb.Base.Int.{ℤ, pos, negsuc}
use curb.Easy.{Easy}
use curb.Easy.Attributes.{as_long}
use curb.Ruby.{range_error, Result, ok, raise}

-- As a double, an Integer is above zero if it is.
unfoldable pub timeout_ms_set : Option ℤ → Easy → Easy × Result ℤ
timeout_ms_set none e = (record e { timeout_ms = 0 }, ok (pos 0))
timeout_ms_set (some (negsuc n)) e = (record e { timeout_ms = 0 }, ok (pos 0))
timeout_ms_set (some (pos n)) e =
    if n == 0
    then (record e { timeout_ms = 0 }, ok (pos 0))
    else if ltb n (2 ^ 64)
    then (record e { timeout_ms = n }, ok (pos n))
    else (e, raise range_error)

-- LONG2NUM of an unsigned long
unfoldable pub timeout_ms_get : Easy → ℤ
timeout_ms_get e = as_long e.timeout_ms

-- The number of milliseconds in an unsigned long is kept and given back by the setter, but the getter
-- gives it only where it fits in a long.
timeout_ms_set-get :
    (n : ℕ) (e : Easy)
    → n < 2 ^ 64
    → ((timeout_ms_set (some (pos n)) e).0.timeout_ms ≡ n)
      × ((timeout_ms_set (some (pos n)) e).1 ≡ ok (pos n))
      × ((timeout_ms_get (timeout_ms_set (some (pos n)) e).0 ≡ pos n) ↔ (n < 2 ^ 63))
unfolding timeout_ms_set timeout_ms_get
timeout_ms_set-get n e fits = (ground arith, ground arith, (λ h. ground arith, λ h. ground arith))
