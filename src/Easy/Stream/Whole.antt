-- ===== src/Easy/Stream/Whole.antt =====
-- An upload whose stream has no read method: the read callback of ext/curb_easy.c, over all the
-- requests of a transfer, hands out the stream's string.
use curb.Base.{
  ℕ, zero, suc, ◌+◌, ◌-◌, ◌≡◌, ◌≤◌, refl, true, false, some, List, [], ◌∷◌, ◌++◌, Bytes, append-nil,
  length, take, drop, arith, Bool-cases, inl, inr, leb, ap, sym, ◌∙◌,
}
use curb.Easy.{Easy, Upload}
use curb.Easy.Callbacks.{rescue_easy_callback, with_easy_callback_active}
use curb.Easy.Stream.{Methods, Read, abort, copied, read_data_handler, copy_from, set_offset}
use curb.Ruby.{ok, Value, str}

-- The bytes of the read callback, which an abort has none of.
abbrev pub bytes_of : Read → Bytes
bytes_of abort = []
bytes_of (copied bytes) = bytes

-- The requests of libcurl, each for at most so many bytes, and all that they give.
unfoldable pub read_all : Methods → List ℕ → Easy → Easy × Bytes
read_all m [] e = (e, [])
read_all m (size ∷ sizes) e =
    let r = read_data_handler m size e in
    let rest = read_all m sizes r.0 in (rest.0, bytes_of r.1 ++ rest.1)

abbrev pub sum : List ℕ → ℕ
sum [] = 0
sum (n ∷ ns) = n + sum ns

-- The stream has no read method, and its to_s gives `text` without touching the easy.
abbrev pub GivesText : Methods → Value → Bytes → Type 0
GivesText m stream text =
    (m.responds_to_read stream ≡ false)
    × (m.responds_to_to_s stream ≡ true)
    × ((e : Easy) → m.to_s stream e ≡ (e, ok (str text)))

-- The upload object that the easy holds.
abbrev pub Uploads : Easy → Value → ℕ → Type 0
Uploads e stream offset = e.opts.upload ≡ some (record { stream = stream; offset = offset })

take-nil : (n : ℕ) → ◌≡◌ {A = Bytes} (take n []) []
take-nil zero = refl
take-nil (suc n) = refl

drop-nil : (n : ℕ) → ◌≡◌ {A = Bytes} (drop n []) []
drop-nil zero = refl
drop-nil (suc n) = refl

suc_add : (n k : ℕ) → suc (n + k) ≡ suc n + k
suc_add n k = omega arith

take_all : (n : ℕ) (xs : Bytes) → length xs ≤ n → take n xs ≡ xs
take_all n [] h = take-nil n
take_all zero (x ∷ xs) h = absurd (omega arith)
take_all (suc n) (x ∷ xs) h = rw (take_all n xs (omega arith)) refl

drop_all : (n : ℕ) (xs : Bytes) → length xs ≤ n → drop n xs ≡ []
drop_all zero [] h = refl
drop_all (suc n) [] h = refl
drop_all zero (x ∷ xs) h = absurd (omega arith)
drop_all (suc n) (x ∷ xs) h = drop_all n xs (omega arith)

drop-drop : (n k : ℕ) (xs : Bytes) → drop k (drop n xs) ≡ drop (n + k) xs
drop-drop zero k xs = ap (λ n. drop n xs) (omega arith)
drop-drop (suc n) k [] = drop-nil k ∙ sym (drop-nil (suc n + k))
drop-drop (suc n) k (x ∷ xs) = drop-drop n k xs ∙ ap (λ j. drop j (x ∷ xs)) (suc_add n k)

take_add : (n k : ℕ) (xs : Bytes) → take n xs ++ take k (drop n xs) ≡ take (n + k) xs
take_add zero k xs = ap (λ n. take n xs) (omega arith)
take_add (suc n) k [] = take-nil k ∙ sym (take-nil (suc n + k))
take_add (suc n) k (x ∷ xs) =
    ap (λ t. x ∷ t) (take_add n k xs) ∙ ap (λ j. take j (x ∷ xs)) (suc_add n k)

pub length-drop : (n : ℕ) (xs : Bytes) → n ≤ length xs → n + length (drop n xs) ≡ length xs
length-drop zero xs h = omega arith
length-drop (suc n) [] h = absurd (omega arith)
length-drop (suc n) (x ∷ xs) h = omega (arith, length-drop n xs (omega arith))

module _ (m : Methods) (stream : Value) (text : Bytes) (gives : GivesText m stream text) where
  read-copy :
      (e : Easy) (offset size : ℕ)
      → Uploads e stream offset
      → read_data_handler m size e
        ≡ copy_from
            (record { stream = stream; offset = offset })
            size
            text
            (record e { callback_active = false })
  unfolding read_data_handler rescue_easy_callback with_easy_callback_active
  read-copy e offset size h = rw h (rw (gives.0, gives.1, gives.2) refl)

  read_all-step :
      (size : ℕ) (sizes : List ℕ) (e e' : Easy) (bytes : Bytes)
      → read_data_handler m size e ≡ (e', copied bytes)
      → (read_all m (size ∷ sizes) e).1 ≡ bytes ++ (read_all m sizes e').1
  unfolding read_all
  read_all-step size sizes e e' bytes h = rw h refl

  -- For a stream without a read method whose to_s gives the text and leaves the easy alone, and an
  -- offset within the text: however libcurl sizes its requests, what the read callback hands out is
  -- the text from the offset on, in order, nothing lost and nothing twice, until the requests or the
  -- text end.
  pub read_all-text :
      (sizes : List ℕ) (e : Easy) (offset : ℕ)
      → Uploads e stream offset
      → offset ≤ length text
      → (read_all m sizes e).1 ≡ take (sum sizes) (drop offset text)
  unfolding read_all
  read_all-text [] e offset h le = refl
  read_all-text (size ∷ sizes) e offset h le = elim (Bool-cases (leb (length text) offset)) [
    | inl past ↦
        read_all-step size sizes e (record e { callback_active = false }) []
          (read-copy e offset size h ∙ rw past refl)
        ∙ read_all-text sizes (record e { callback_active = false }) offset h le
        ∙ rw (drop_all offset text (ground arith))
            (take-nil (sum sizes) ∙ sym (take-nil (size + sum sizes)))
    | inr within ↦ elim (Bool-cases (leb (length text - offset) size)) [
      | inl short ↦
          let e' : Easy =
            set_offset (at offset) (offset + (length text - offset))
              (record e { callback_active = false }) in
          read_all-step size sizes e e' (drop offset text)
            (read-copy e offset size h ∙ rw (within, short) refl)
          ∙ ap (λ bytes. drop offset text ++ bytes)
              (read_all-text sizes e' (offset + (length text - offset)) refl (omega arith)
                ∙ ap (take (sum sizes))
                    (drop_all (offset + (length text - offset)) text (omega arith))
                ∙ take-nil (sum sizes))
          ∙ append-nil (drop offset text)
          ∙ sym (
              take_all (size + sum sizes) (drop offset text)
                (ground (arith, length-drop offset text le)))
      | inr long ↦
          let e' : Easy =
            set_offset (at offset) (offset + size) (record e { callback_active = false }) in
          read_all-step size sizes e e' (take size (drop offset text))
            (read-copy e offset size h ∙ rw (within, long) refl)
          ∙ ap (λ bytes. take size (drop offset text) ++ bytes)
              (read_all-text sizes e' (offset + size) refl (ground arith)
                ∙ ap (take (sum sizes)) (sym (drop-drop offset size text)))
          ∙ take_add size (sum sizes) (drop offset text)
    ]
  ]
    where
      at : ℕ → Upload
      at k = record { stream = stream; offset = k }
