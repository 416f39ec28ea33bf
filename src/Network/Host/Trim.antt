-- ===== src/Network/Host/Trim.antt =====
-- The loops of ext/curb_easy.c that move `start` and `end` inwards.
use curb.Base.{
  ℕ, ◌≡◌, ◌≢◌, refl, Bool, true, false, ◌||◌, [], ◌∷◌, ◌++◌, Bytes, ◌==◌, if◌then◌else◌, ap, All,
}

abbrev pub is_blank : ℕ → Bool
is_blank c = c == b' ' || (c == 9 || (c == 13 || c == 10))

abbrev pub is_dot : ℕ → Bool
is_dot c = c == b'.'

unfoldable pub trim_start : Bytes → Bytes
trim_start [] = []
trim_start (c ∷ cs) = if is_blank c then trim_start cs else c ∷ cs

abbrev pub put_back : (ℕ → Bool) → ℕ → Bytes → Bytes
put_back drops c [] = if drops c then [] else c ∷ []
put_back drops c (d ∷ ds) = c ∷ d ∷ ds

-- while (end > start && drops(end[-1])) end--;
unfoldable pub trim_end : (ℕ → Bool) → Bytes → Bytes
trim_end drops [] = []
trim_end drops (c ∷ cs) = put_back drops c (trim_end drops cs)

-- The last byte, if there is one, is kept by the trim.
abbrev pub Closed : (ℕ → Bool) → Bytes → Type 0
Closed drops [] = Unit {0}
Closed drops (c ∷ []) = drops c ≡ false
Closed drops (c ∷ d ∷ ds) = Closed drops (d ∷ ds)

put_back-dropped : (drops : ℕ → Bool) (c : ℕ) → Closed drops (put_back drops c [])
put_back-dropped drops c = go (drops c) refl
  where
    go : (b : Bool) → drops c ≡ b → Closed drops (if b then [] else c ∷ [])
    go true e = tt
    go false e = e

put_back-Closed :
    (drops : ℕ → Bool) (c : ℕ) (r : Bytes) → Closed drops r → Closed drops (put_back drops c r)
put_back-Closed drops c [] h = put_back-dropped drops c
put_back-Closed drops c (d ∷ ds) h = h

pub trim_end-Closed : (drops : ℕ → Bool) (xs : Bytes) → Closed drops (trim_end drops xs)
unfolding trim_end
trim_end-Closed drops [] = tt
trim_end-Closed drops (c ∷ cs) =
    put_back-Closed drops c (trim_end drops cs) (trim_end-Closed drops cs)

pub put_back-kept :
    (drops : ℕ → Bool) (c : ℕ) (r : Bytes) → drops c ≡ false → put_back drops c r ≡ c ∷ r
put_back-kept drops c [] h = rw h
put_back-kept drops c (d ∷ ds) h = refl

put_back-append :
    (drops : ℕ → Bool) (x : ℕ) (xs : Bytes) (c : ℕ) (ys : Bytes)
    → put_back drops x (xs ++ c ∷ ys) ≡ x ∷ (xs ++ c ∷ ys)
put_back-append drops x [] c ys = refl
put_back-append drops x (y ∷ xs) c ys = refl

-- A byte that is kept keeps all before it.
trim_end-append :
    (drops : ℕ → Bool) (xs : Bytes) (c : ℕ) (ys : Bytes)
    → drops c ≡ false
    → trim_end drops (xs ++ c ∷ ys) ≡ xs ++ c ∷ trim_end drops ys
unfolding trim_end
trim_end-append drops [] c ys h = put_back-kept drops c (trim_end drops ys) h
trim_end-append drops (x ∷ xs) c ys h =
    rw (trim_end-append drops xs c ys h) (put_back-append drops x xs c (trim_end drops ys))

pub trim_end-id : (drops : ℕ → Bool) (xs : Bytes) → Closed drops xs → trim_end drops xs ≡ xs
unfolding trim_end
trim_end-id drops [] h = refl
trim_end-id drops (c ∷ []) h = rw h
trim_end-id drops (c ∷ d ∷ ds) h = ap (put_back drops c) (trim_end-id drops (d ∷ ds) h)

-- The first byte, if there is one, is no blank.
abbrev pub Opened : Bytes → Type 0
Opened [] = Unit {0}
Opened (c ∷ cs) = is_blank c ≡ false

pub trim_start-Opened : (xs : Bytes) → Opened (trim_start xs)
unfolding trim_start
trim_start-Opened [] = tt
trim_start-Opened (c ∷ cs) = go (is_blank c) refl (trim_start-Opened cs)
  where
    go :
        (b : Bool)
        → is_blank c ≡ b
        → Opened (trim_start cs)
        → Opened (if b then trim_start cs else c ∷ cs)
    go true e h = h
    go false e h = e

pub trim_start-id : (xs : Bytes) → Opened xs → trim_start xs ≡ xs
unfolding trim_start
trim_start-id [] h = refl
trim_start-id (c ∷ cs) h = rw h

put_back-Opened :
    (drops : ℕ → Bool) (c : ℕ) (r : Bytes) → is_blank c ≡ false → Opened (put_back drops c r)
put_back-Opened drops c [] h = go (drops c)
  where
    go : (b : Bool) → Opened (if b then [] else c ∷ [])
    go true = tt
    go false = h
put_back-Opened drops c (d ∷ ds) h = h

pub trim_end-Opened : (drops : ℕ → Bool) (xs : Bytes) → Opened xs → Opened (trim_end drops xs)
unfolding trim_end
trim_end-Opened drops [] h = tt
trim_end-Opened drops (c ∷ cs) h = put_back-Opened drops c (trim_end drops cs) h

-- What ends in a kept byte is left alone, whatever follows.
pub trim_end-append_Closed :
    (drops : ℕ → Bool) (c : ℕ) (cs ys : Bytes)
    → Closed drops (c ∷ cs)
    → trim_end drops ((c ∷ cs) ++ ys) ≡ (c ∷ cs) ++ trim_end drops ys
unfolding trim_end
trim_end-append_Closed drops c [] ys h = put_back-kept drops c (trim_end drops ys) h
trim_end-append_Closed drops c (d ∷ ds) ys h =
    ap (put_back drops c) (trim_end-append_Closed drops d ds ys h)

pub Closed-append :
    (drops : ℕ → Bool) (xs ys : Bytes) → ys ≢ [] → Closed drops ys → Closed drops (xs ++ ys)
Closed-append drops [] ys n h = h
Closed-append drops (x ∷ []) [] n h = absurd (n refl)
Closed-append drops (x ∷ []) (y ∷ ys) n h = h
Closed-append drops (x ∷ y ∷ xs) ys n h = Closed-append drops (y ∷ xs) ys n h

pub Closed-of_All :
    (drops : ℕ → Bool) (xs : Bytes) → All (λ c. drops c ≡ false) xs → Closed drops xs
Closed-of_All drops [] h = tt
Closed-of_All drops (c ∷ []) h = h.0
Closed-of_All drops (c ∷ d ∷ ds) h = Closed-of_All drops (d ∷ ds) h.1
