-- ===== src/Network/Host/Shape.antt =====
-- What the hosts that are given look like, and how the raising form relates to the other one.
use curb.Base.{
  ℕ, ◌≡◌, ◌≢◌, Bool, true, false, ◌&&◌, inl, inr, Option, none, some, [], ◌∷◌, map, Bytes, leb,
  ◌==◌, All, arith, Option-cases, Bool-cases,
}
use curb.Ruby.{arg_error, Result, ok, raise}
use curb.Network.Cidr.{split_at}
use curb.Network.Host.Trim.{
  is_blank, is_dot, trim_start, trim_end, Closed, Opened, trim_end-Closed, trim_start-Opened,
  trim_end-Opened,
}
use curb.Network.Host.{
  ascii_downcase, lowered, normalized_host_from_range, bracketed_host, before_port,
  host_of_authority, host_of_text, normalize_host_value_impl, normalize_host_value,
  try_normalize_host_value,
}

abbrev pub is_upper : ℕ → Bool
is_upper c = leb b'A' c && leb c b'Z'

-- Not empty, in lower case, with no blank in front and no dot behind.
pub record IsHost (h : Bytes) : Type 0 where
  pub nonempty : h ≢ []
  pub lower : All (λ c. is_upper c ≡ false) h
  pub opened : Opened h
  pub closed : Closed is_dot h

downcase-lower : (c : ℕ) → is_upper (ascii_downcase c) ≡ false
unfolding ascii_downcase
downcase-lower c = ground arith

downcase-blank : (c : ℕ) → is_blank c ≡ false → is_blank (ascii_downcase c) ≡ false
unfolding ascii_downcase
downcase-blank c h = ground arith

downcase-dot : (c : ℕ) → is_dot c ≡ false → is_dot (ascii_downcase c) ≡ false
unfolding ascii_downcase
downcase-dot c h = ground arith

map-lower : (xs : Bytes) → All (λ c. is_upper c ≡ false) (map ascii_downcase xs)
map-lower [] = tt
map-lower (c ∷ cs) = (downcase-lower c, map-lower cs)

map-Closed : (xs : Bytes) → Closed is_dot xs → Closed is_dot (map ascii_downcase xs)
map-Closed [] h = tt
map-Closed (c ∷ []) h = downcase-dot c h
map-Closed (c ∷ d ∷ ds) h = map-Closed (d ∷ ds) h

-- The outcomes of the raising form and of the other one: both reject, or both give one host.
pub data SameHost : (raising trying : Result (Option Bytes)) → Type 0 where
  rejected : SameHost (raise arg_error) (ok none)
  host : (h : Bytes) → IsHost h → SameHost (ok (some h)) (ok (some h))

lowered-SameHost :
    (xs : Bytes) → Opened xs → Closed is_dot xs → SameHost (lowered xs true) (lowered xs false)
unfolding lowered
lowered-SameHost [] o c = rejected
lowered-SameHost (x ∷ xs) o c = host _ (record {
  nonempty = cc;
  lower = map-lower (x ∷ xs);
  opened = downcase-blank x o;
  closed = map-Closed (x ∷ xs) c;
})

range-SameHost :
    (xs : Bytes)
    → SameHost (normalized_host_from_range xs true) (normalized_host_from_range xs false)
unfolding normalized_host_from_range
range-SameHost xs =
    lowered-SameHost _
      (trim_end-Opened is_dot _ (trim_end-Opened is_blank _ (trim_start-Opened xs)))
      (trim_end-Closed is_dot (trim_end is_blank (trim_start xs)))

bracketed-SameHost : (xs : Bytes) → SameHost (bracketed_host xs true) (bracketed_host xs false)
unfolding bracketed_host
bracketed-SameHost xs = elim (Option-cases (split_at b']' xs)) [
  | inl e ↦ rw (e, bracketed_host) rejected
  | inr ((inside, after), e) ↦ rw (e, bracketed_host) (range-SameHost inside)
]

authority-SameHost :
    (xs : Bytes) → SameHost (host_of_authority xs true) (host_of_authority xs false)
unfolding host_of_authority
authority-SameHost [] = range-SameHost (before_port [])
authority-SameHost (c ∷ cs) = elim (Bool-cases (c == b'[')) [
  | inl e ↦ rw e (bracketed-SameHost cs)
  | inr e ↦ rw e (range-SameHost (before_port (c ∷ cs)))
]

text-SameHost : (xs : Bytes) → SameHost (host_of_text xs true) (host_of_text xs false)
unfolding host_of_text
text-SameHost [] = rejected
text-SameHost (c ∷ cs) = authority-SameHost _

-- For every value: either curb_normalize_host_value raises an ArgumentError and
-- curb_try_normalize_host_value gives NULL, or both give the same host, which is not empty, has no
-- upper-case letter, does not begin with a blank and does not end in a dot.
pub normalize-SameHost :
    (value : Option Bytes) → SameHost (normalize_host_value value) (try_normalize_host_value value)
unfolding normalize_host_value try_normalize_host_value normalize_host_value_impl
normalize-SameHost none = rejected
normalize-SameHost (some value) = text-SameHost (trim_end is_blank (trim_start value))
