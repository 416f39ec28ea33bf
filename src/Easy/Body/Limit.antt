-- ===== src/Easy/Body/Limit.antt =====
-- The body that the default write callback of ext/curb_easy.c collects under a limit, over all the
-- chunks of a transfer.
use curb.Base.{
  ℕ, suc, ◌+◌, ◌≡◌, ◌≤◌, ◌<◌, refl, ◌⊎◌, inl, inr, Bool, true, false, some, List, [], ◌∷◌, ◌++◌,
  Bytes, length, length-append, append_assoc, append-nil, arith, Bool-cases, ltb, sym, ◌∙◌,
  if◌then◌else◌, ◌==◌, ==_refl, subst, take,
}
use curb.Base.Int.{pos}
use curb.Easy.{Easy}
use curb.Easy.Callbacks.{first_error}
use curb.Ruby.{file_size_exceeded}
use curb.Easy.Body.{
  or_empty_text, body_limit_exceeded, default_body_handler, file_size_error, append_body,
}

abbrev pub body_of : Easy → Bytes
body_of e = or_empty_text e.opts.body_data

abbrev pub concat : List Bytes → Bytes
concat [] = []
concat (c ∷ cs) = c ++ concat cs

abbrev pub first_part : Easy × ℕ → ℕ → (Easy → Easy × Bool) → Easy × Bool
first_part (e, n) size next = if n == size then next e else (e, false)

-- libcurl hands over one chunk after another, and stops with an error at the first result that is
-- not the size of its chunk.
unfoldable pub deliver : List Bytes → Easy → Easy × Bool
deliver [] e = (e, true)
deliver (c ∷ cs) e = first_part (default_body_handler c e) (length c) (deliver cs)

-- A chunk within the limit is appended; any other is refused.
step :
    (m : ℕ) (c : Bytes) (e : Easy)
    → e.opts.max_body_bytes ≡ some (pos (suc m))
    → default_body_handler c e ≡ (
        if ltb (suc m) (length c + e.downloaded_body_bytes) then (file_size_error e, 0) else (
          append_body c (record e { downloaded_body_bytes = e.downloaded_body_bytes + length c }),
          length c,
        ))
unfolding default_body_handler body_limit_exceeded
step m c e h = rw h (ground arith)

abbrev after : Bytes → Easy → Easy
after c e = append_body c (record e { downloaded_body_bytes = e.downloaded_body_bytes + length c })

deliver-refused :
    (m : ℕ) (c : Bytes) (cs : List Bytes) (e : Easy)
    → e.opts.max_body_bytes ≡ some (pos (suc m))
    → e.downloaded_body_bytes ≤ suc m
    → ltb (suc m) (length c + e.downloaded_body_bytes) ≡ true
    → deliver (c ∷ cs) e ≡ (file_size_error e, false)
unfolding deliver
deliver-refused m c cs e h fits over = rw (step m c e h, over, short) refl
  where
    short : (0 == length c) ≡ false
    short = ground arith

deliver-taken :
    (m : ℕ) (c : Bytes) (cs : List Bytes) (e : Easy)
    → e.opts.max_body_bytes ≡ some (pos (suc m))
    → ltb (suc m) (length c + e.downloaded_body_bytes) ≡ false
    → deliver (c ∷ cs) e ≡ deliver cs (after c e)
unfolding deliver
deliver-taken m c cs e h under = rw (step m c e h, under, ==_refl (length c)) refl

-- What a transfer under the limit may end in: all chunks are taken and the whole body is kept within
-- the limit; or the body would pass the limit, the transfer fails, what is kept is a first part of
-- the body within the limit, and an exception is stored, FileSizeExceeded if there was none.
abbrev pub Delivered : ℕ → List Bytes → Easy → Easy × Bool → Type 0
Delivered limit cs e (e', done) =
    ((length (body_of e ++ concat cs) ≤ limit)
      × (done ≡ true)
      × (body_of e' ≡ body_of e ++ concat cs)
      × (e'.callback_error ≡ e.callback_error))
    ⊎ ((limit < length (body_of e ++ concat cs))
        × (done ≡ false)
        × (length (body_of e') ≤ limit)
        × ((k : ℕ) × (body_of e' ≡ body_of e ++ concat (take k cs)))
        × (e'.callback_error ≡ some (first_error e.callback_error file_size_exceeded)))

Delivered-refused :
    (m : ℕ) (c : Bytes) (cs : List Bytes) (e : Easy)
    → length (body_of e) ≡ e.downloaded_body_bytes
    → e.downloaded_body_bytes ≤ suc m
    → ltb (suc m) (length c + e.downloaded_body_bytes) ≡ true
    → Delivered (suc m) (c ∷ cs) e (file_size_error e, false)
Delivered-refused m c cs e kept fits over = inr (
  ground (arith, length-append (body_of e) (c ++ concat cs), length-append c (concat cs)),
  refl,
  omega arith,
  (0, sym (append-nil (body_of e))),
  refl,
)

Delivered-taken :
    (limit : ℕ) (c : Bytes) (cs : List Bytes) (e : Easy) (r : Easy × Bool)
    → Delivered limit cs (after c e) r
    → Delivered limit (c ∷ cs) e r
Delivered-taken limit c cs e (e', done) (inl (fits, yes_done, body, kept)) =
    inl (subst (λ b. length b ≤ limit) whole fits, yes_done, body ∙ whole, kept)
  where
    whole : (body_of e ++ c) ++ concat cs ≡ body_of e ++ (c ++ concat cs)
    whole = append_assoc (body_of e) c (concat cs)
Delivered-taken limit c cs e (e', done) (inr (over, failed, fits, (k, body), stored)) = inr (
  subst (λ b. limit < length b) (append_assoc (body_of e) c (concat cs)) over,
  failed,
  fits,
  (suc k, body ∙ append_assoc (body_of e) c (concat (take k cs))),
  stored,
)

-- For a limit above 0, a body that has been kept so far whole and within the limit, and any chunks
-- that follow: they all fit and are kept, in order, with no error; or they do not fit, and the transfer
-- fails with a first part of them kept, within the limit, and an exception stored, FileSizeExceeded
-- if there was none.
pub deliver-Delivered :
    (m : ℕ) (cs : List Bytes) (e : Easy)
    → e.opts.max_body_bytes ≡ some (pos (suc m))
    → length (body_of e) ≡ e.downloaded_body_bytes
    → e.downloaded_body_bytes ≤ suc m
    → Delivered (suc m) cs e (deliver cs e)
unfolding deliver
deliver-Delivered m [] e h kept fits =
    inl (rw (append-nil (body_of e)) (omega arith), refl, sym (append-nil (body_of e)), refl)
deliver-Delivered m (c ∷ cs) e h kept fits =
    elim (Bool-cases (ltb (suc m) (length c + e.downloaded_body_bytes))) [
      | inl over ↦
          subst (Delivered (suc m) (c ∷ cs) e) (sym (deliver-refused m c cs e h fits over))
            (Delivered-refused m c cs e kept fits over)
      | inr under ↦ subst (Delivered (suc m) (c ∷ cs) e) (sym (deliver-taken m c cs e h under)) (
          Delivered-taken (suc m) c cs e (deliver cs (after c e)) (
            deliver-Delivered m cs (after c e) h (ground (arith, length-append (body_of e) c))
              (ground arith)))
    ]
