-- ===== src/Easy/Attributes/Ports.antt =====
-- What the setters of numeric attributes accept and keep (ext/curb_easy.c, ext/curb_macros.h).
use curb.Base.{
  ℕ, ◌+◌, ◌%◌, ◌^◌, ◌<◌, ◌≡◌, ◌↔◌, refl, arith, bit_and, Option, none, some, ◌==◌, Bool-cases, inl,
  inr, ltb, not, ◌&&◌, ap,
}
use curb.Base.Int.{ℤ, pos, negsuc}
use curb.Easy.{Easy}
use curb.Easy.Body.{num2long}
use curb.Easy.Attributes.{
  port_set, port_get, local_port_set, local_port_get, local_port_range_set, local_port_range_get,
  proxy_port_set, proxy_port_get, immed_set, ssl_verify_host_set, num2int, checked_port,
}
use curb.Easy.Attributes.Mask.{bit_and-le, bit_and-mask}
use curb.Ruby.{Exn, arg_error, range_error, Result, ok, raise, ◌>>=◌}

-- nil, or a number from 1 to 65535.
abbrev pub IsPort : Option ℤ → Type 0
IsPort none = Unit
IsPort (some (pos n)) = (0 < n) × (n < 65536)
IsPort (some (negsuc n)) = ⊥

-- A setter keeps just the ports, to be read back, and refuses all else without a change.
abbrev pub Exact :
    (Option ℤ → Easy → Easy × Result (Option ℤ)) → (Easy → Option ℤ) → Option ℤ → Easy → Type 0
Exact set get v e =
    (IsPort v → ((set v e).1 ≡ ok v) × (get (set v e).0 ≡ v))
    × ((IsPort v → ⊥) → ((x : Exn) × ((set v e).1 ≡ raise x)) × ((set v e).0 ≡ e))

-- What the check makes of an Integer.
abbrev checked : ℤ → Result ℕ
checked z = num2int z >>= checked_port

checked-port : (n : ℕ) → 0 < n → n < 65536 → checked (pos n) ≡ ok n
checked-port n low high = let m = bit_and-mask n high in ground arith

checked-other : (n : ℕ) → ((0 < n) × (n < 65536) → ⊥) → (x : Exn) × (checked (pos n) ≡ raise x)
checked-other n h = elim (Bool-cases (ltb n (2 ^ 31))) [
  | inr big ↦ (range_error, rw big refl)
  | inl small ↦ elim (Bool-cases (not (n == 0) && (bit_and n 65535 == n))) [
    | inl e ↦ absurd (let m = bit_and-le n 65535 in ground arith)
    | inr e ↦ (arg_error, rw (small, e) refl)
  ]
]

checked-negative : (n : ℕ) → (x : Exn) × (checked (negsuc n) ≡ raise x)
checked-negative n = elim (Bool-cases (ltb n (2 ^ 31))) [
  | inr big ↦ (range_error, rw big refl)
  | inl small ↦ (arg_error, rw small refl)
]

port_set-refused :
    (put : ℕ → Easy → Easy) (z : ℤ) (e : Easy) (x : Exn)
    → checked z ≡ raise x
    → port_set put (some z) e ≡ (e, raise x)
unfolding port_set
port_set-refused put z e x h = rw (h, port_set) refl

refused :
    (put : ℕ → Easy → Easy) (z : ℤ) (e : Easy)
    → (x : Exn) × (checked z ≡ raise x)
    → ((x : Exn) × ((port_set put (some z) e).1 ≡ raise x)) × ((port_set put (some z) e).0 ≡ e)
refused put z e (x, h) =
    let r = port_set-refused put z e x h in
    (
      (x, ap (λ (s : Easy × Result (Option ℤ)). s.1) r),
      ap (λ (s : Easy × Result (Option ℤ)). s.0) r,
    )

port_set-Exact :
    (put : ℕ → Easy → Easy) (field : Easy → ℕ)
    → ((p : ℕ) (e : Easy) → field (put p e) ≡ p)
    → (v : Option ℤ) (e : Easy) → Exact (port_set put) (λ e. port_get (field e)) v e
unfolding port_set port_get
port_set-Exact put field kept none e = (λ h. (refl, rw (kept 0 e) refl), λ h. absurd (h tt))
port_set-Exact put field kept (some (negsuc n)) e =
    (λ h. absurd h, λ h. refused put (negsuc n) e (checked-negative n))
port_set-Exact put field kept (some (pos n)) e = (
  λ h.
      let c = checked-port n h.0 h.1 in
      (rw (c, port_set) refl, rw (c, port_set) (let k = kept n e in ground arith)),
  λ h. refused put (pos n) e (checked-other n h),
)

-- The setters of the local port, its range and the proxy port keep nil and the numbers from 1 to
-- 65535, which their getters then give; all other Integers, 0 among them, are refused, and the easy
-- stays.
pub ports-Exact :
    (v : Option ℤ) (e : Easy)
    → Exact local_port_set local_port_get v e
      × Exact local_port_range_set local_port_range_get v e
      × Exact proxy_port_set proxy_port_get v e
unfolding local_port_set local_port_get local_port_range_set local_port_range_get proxy_port_set
    proxy_port_get
ports-Exact v e = (
  port_set-Exact _ (λ e. e.local_port) (λ p e. refl) v e,
  port_set-Exact _ (λ e. e.local_port_range) (λ p e. refl) v e,
  port_set-Exact _ (λ e. e.proxy_port) (λ p e. refl) v e,
)

-- How far an Integer is from zero, and that it fits in a long.
abbrev pub magnitude : ℤ → ℕ
magnitude (pos n) = n
magnitude (negsuc n) = n + 1

abbrev pub FitsLong : ℤ → Type 0
FitsLong (pos n) = n < 2 ^ 63
FitsLong (negsuc n) = n < 2 ^ 63

-- The setter of ssl_verify_host takes any Integer that fits in a long, negative ones too, and keeps it
-- in a char: the check is off afterwards exactly if the number is a multiple of 256.
pub ssl_verify_host_set-off :
    (z : ℤ) (e : Easy)
    → FitsLong z
    → ((ssl_verify_host_set (some z) e).1 ≡ ok (some z))
      × (((ssl_verify_host_set (some z) e).0.ssl_verify_host ≡ pos 0) ↔ (magnitude z % 256 ≡ 0))
unfolding ssl_verify_host_set immed_set num2long
ssl_verify_host_set-off (pos n) e fits = ground arith
ssl_verify_host_set-off (negsuc n) e fits = ground arith
