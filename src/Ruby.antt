-- ===== src/Ruby.antt =====
-- What the C code uses of Ruby: raising an exception, and strings as bytes (ext/curb_easy.c,
-- ext/curb_multi.c). A raise is a value of `Result`; what had changed before it is in the state
-- that the function returns beside it.
use curb.Base.Int.{ℤ}
use curb.Base.{Bytes, ℕ, ◌≡◌, refl, ◌⊎◌, inl, inr}

pub data Exn : Type 0 where
  -- rb_eArgError, rb_eRuntimeError, rb_eTypeError, rb_eRangeError
  arg_error runtime_error type_error range_error : Exn
  -- eCurlErrError, eCurlErrUnsafeDestination, eCurlErrFileSizeExceeded
  curl_error unsafe_destination file_size_exceeded : Exn
  -- eCurlErrAbortedByCallback, with the exception whose message it takes
  aborted_by_callback : Exn → Exn
  -- the exception of a CURLMcode
  multi_error : ℤ → Exn
  -- mCurlErrFailedInit
  multi_init_error : Exn
  -- eCurlErrFailedInit
  easy_init_error : Exn
  -- rb_eNoMemError
  no_memory : Exn
  -- eCurlErrInvalidPostField
  invalid_post_field : Exn
  -- an exception object that a Ruby callback raised
  raised_by_user : ℕ → Exn

-- What a Ruby call gives: nil, false, a string, an integer, or another object.
pub data Value : Type 0 where
  nil qfalse : Value
  str : Bytes → Value
  int : ℤ → Value
  object : ℕ → Value

pub data Result {ℓ} (A : Type ℓ) : Type ℓ where
  ok : A → Result A
  raise : Exn → Result A

infixl 5 ◌>>=◌
abbrev pub ◌>>=◌ {ℓ κ} : {A : Type ℓ} {B : Type κ} → Result A → (A → Result B) → Result B
ok a >>= f = f a
raise e >>= f = raise e

pub Result-cases {ℓ} :
    {A : Type ℓ} (r : Result A) → ((a : A) × (r ≡ ok a)) ⊎ ((e : Exn) × (r ≡ raise e))
Result-cases (ok a) = inl (a, refl)
Result-cases (raise e) = inr (e, refl)
