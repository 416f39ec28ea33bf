-- ===== src/Network/Host/Url/Parts.antt =====
-- How the loops of curb_normalize_host_value_impl of ext/curb_easy.c pass over the parts of a URL.
use curb.Base.{
  ◌≢◌, ◌∙◌, append-nil, ℕ, suc, ◌≡◌, refl, Bool, true, false, Option, none, some, [], ◌∷◌, ◌++◌,
  Bytes, ◌==◌, All, All-imp, All-append, arith, ap,
}
use curb.Network.Host.Trim.{is_blank, trim_end, Closed, put_back-kept, Closed-append}
use curb.Network.Host.{
  before_port, is_colon, colon_count, strip_prefix, find_scheme, after_scheme, find_last_at,
  after_userinfo, take_until, ends_authority,
}
use curb.Network.Host.Url.{digit_byte, port_text, user_text, OnOption, IsTail}

strip_scheme :
    (rest : Bytes) → strip_prefix (b':' ∷ b'/' ∷ b'/' ∷ []) (b':' ∷ b'/' ∷ b'/' ∷ rest) ≡ some rest
unfolding strip_prefix
strip_scheme rest = refl

strip_other :
    (c : ℕ) (cs : Bytes)
    → is_colon c ≡ false
    → strip_prefix (b':' ∷ b'/' ∷ b'/' ∷ []) (c ∷ cs) ≡ none
unfolding strip_prefix
strip_other c cs h = ground arith

find_scheme-append :
    (scheme rest : Bytes)
    → All (λ c. is_colon c ≡ false) scheme
    → find_scheme (scheme ++ b':' ∷ b'/' ∷ b'/' ∷ rest) ≡ some rest
unfolding find_scheme
find_scheme-append [] rest h = rw (strip_scheme rest, find_scheme)
find_scheme-append (c ∷ cs) rest h =
    rw (strip_other c (cs ++ b':' ∷ b'/' ∷ b'/' ∷ rest) h.0, find_scheme)
      (find_scheme-append cs rest h.1)

pub after_scheme-append :
    (scheme rest : Bytes)
    → All (λ c. is_colon c ≡ false) scheme
    → after_scheme (scheme ++ b':' ∷ b'/' ∷ b'/' ∷ rest) ≡ rest
unfolding after_scheme
after_scheme-append scheme rest h = rw (find_scheme-append scheme rest h, after_scheme)

find_last_at-none : (xs : Bytes) → All (λ c. (c == b'@') ≡ false) xs → find_last_at xs ≡ none
unfolding find_last_at
find_last_at-none [] h = refl
find_last_at-none (x ∷ xs) h = rw (find_last_at-none xs h.1, h.0)

find_last_at-append :
    (user rest : Bytes)
    → All (λ c. (c == b'@') ≡ false) rest
    → find_last_at (user ++ b'@' ∷ rest) ≡ some rest
unfolding find_last_at
find_last_at-append [] rest h = rw (find_last_at-none rest h)
find_last_at-append (x ∷ xs) rest h = rw (find_last_at-append xs rest h)

pub user_text-nonempty : (user : Option Bytes) (c : ℕ) (cs : Bytes) → user_text user (c ∷ cs) ≢ []
user_text-nonempty none c cs = λ e. cc
user_text-nonempty (some []) c cs = λ e. cc
user_text-nonempty (some (u ∷ us)) c cs = λ e. cc

pub user_text-Closed :
    (drops : ℕ → Bool) (user : Option Bytes) (c : ℕ) (cs : Bytes)
    → Closed drops (c ∷ cs)
    → Closed drops (user_text user (c ∷ cs))
user_text-Closed drops none c cs h = h
user_text-Closed drops (some u) c cs h = Closed-append drops u (b'@' ∷ c ∷ cs) (λ e. cc) h

pub after_userinfo-user_text :
    (user : Option Bytes) (rest : Bytes)
    → All (λ c. (c == b'@') ≡ false) rest
    → after_userinfo (user_text user rest) ≡ rest
unfolding after_userinfo
after_userinfo-user_text none rest h = rw (find_last_at-none rest h, after_userinfo)
after_userinfo-user_text (some u) rest h = rw (find_last_at-append u rest h, after_userinfo)

pub user_text-All :
    (P : ℕ → Type 0) (user : Option Bytes) (rest : Bytes)
    → P b'@'
    → OnOption (All P) user
    → All P rest
    → All P (user_text user rest)
user_text-All P none rest at hu h = h
user_text-All P (some u) rest at hu h = All-append P u (b'@' ∷ rest) hu (at, h)

pub port_text-All :
    (P : ℕ → Bool) (port : Option Bytes)
    → P b':' ≡ false
    → ((c : ℕ) → digit_byte c ≡ true → P c ≡ false)
    → OnOption (All (λ c. digit_byte c ≡ true)) port
    → All (λ c. P c ≡ false) (port_text port)
port_text-All P none colon f h = tt
port_text-All P (some p) colon f h =
    (colon, All-imp (λ c. digit_byte c ≡ true) (λ c. P c ≡ false) p f h)

colon_count-none : (xs : Bytes) → All (λ c. is_colon c ≡ false) xs → colon_count xs ≡ 0
unfolding colon_count
colon_count-none [] h = refl
colon_count-none (x ∷ xs) h = rw h.0 (colon_count-none xs h.1)

colon_count-append :
    (xs ys : Bytes) → All (λ c. is_colon c ≡ false) xs → colon_count (xs ++ ys) ≡ colon_count ys
unfolding colon_count
colon_count-append [] ys h = refl
colon_count-append (x ∷ xs) ys h = rw h.0 (colon_count-append xs ys h.1)

take_until-All :
    (stops : ℕ → Bool) (xs : Bytes) → All (λ c. stops c ≡ false) xs → take_until stops xs ≡ xs
unfolding take_until
take_until-All stops [] h = refl
take_until-All stops (x ∷ xs) h = rw (h.0, take_until-All stops xs h.1)

take_until-stop :
    (stops : ℕ → Bool) (xs : Bytes) (c : ℕ) (ys : Bytes)
    → All (λ c. stops c ≡ false) xs
    → stops c ≡ true
    → take_until stops (xs ++ c ∷ ys) ≡ xs
unfolding take_until
take_until-stop stops [] c ys h e = rw e
take_until-stop stops (x ∷ xs) c ys h e = rw (h.0, take_until-stop stops xs c ys h.1 e)

colon_count-port :
    (host p : Bytes)
    → All (λ c. is_colon c ≡ false) host
    → All (λ c. is_colon c ≡ false) p
    → colon_count (host ++ b':' ∷ p) ≡ 1
unfolding colon_count
colon_count-port host p hh hp =
    colon_count-append host (b':' ∷ p) hh ∙ ap suc (colon_count-none p hp)

-- A host keeps everything but its port.
pub before_port-host :
    (host : Bytes) (port : Option Bytes)
    → All (λ c. is_colon c ≡ false) host
    → OnOption (All (λ c. is_colon c ≡ false)) port
    → before_port (host ++ port_text port) ≡ host
unfolding before_port
before_port-host host none hh hp =
    rw (append-nil host, colon_count-none host hh) (take_until-All is_colon host hh)
before_port-host host (some p) hh hp =
    rw (colon_count-port host p hh hp) (take_until-stop is_colon host b':' p hh refl)

-- The authority ends where the tail begins.
pub take_until-authority :
    (authority tail : Bytes)
    → All (λ c. ends_authority c ≡ false) authority
    → IsTail tail
    → take_until ends_authority (authority ++ tail) ≡ authority
take_until-authority authority [] h t =
    rw (append-nil authority) (take_until-All ends_authority authority h)
take_until-authority authority (c ∷ cs) h t = take_until-stop ends_authority authority c cs h t

not-blank_of_ends : (c : ℕ) → ends_authority c ≡ true → is_blank c ≡ false
not-blank_of_ends c h = ground arith

pub trim_end-IsTail : (tail : Bytes) → IsTail tail → IsTail (trim_end is_blank tail)
unfolding trim_end
trim_end-IsTail [] h = tt
trim_end-IsTail (c ∷ cs) h =
    rw (put_back-kept is_blank c (trim_end is_blank cs) (not-blank_of_ends c h)) h
