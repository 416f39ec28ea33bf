-- ===== src/Request/PutData/Raised.antt =====
-- What easy.put_data= of ext/curb_easy.c leaves when it raises.
use curb.Base.{
  true, false, some, List, Bytes, ◌≡◌, refl, sym, ◌∙◌, ap, subst, arith, inl, inr, ◌⊎◌,
  Option-cases,
}
use curb.Base.Int.{ℤ}
use curb.Easy.{Headers, no_headers, header_hash, header_array, header_string}
use curb.PostField.{Forms}
use curb.Request.{Call}
use curb.Request.PutData.{
  PutData, Numbers, hash_of, upload_stream, long_of, sized, headers_changed, upload_set,
  infile_long, infile_set, put_data_set,
}
use curb.Ruby.{Exn, Value, nil, qfalse, str, int, object, Result, ok, raise, Result-cases}
use curb.Request.PutData.Sizes.{WithExpect, default_expect-WithExpect, SizeRaises, sized-raise}

module _ {F : Forms} where
  abbrev pub with_headers : List (Bytes × Value) → Call F → Call F
  with_headers headers c = record c {
    easy = record (c.easy) { opts = record (c.easy.opts) { headers = header_hash headers } };
  }

module _ (N : Numbers) {F : Forms} where
  changed-cases :
      (h : Headers) (old new : List (Bytes × Value)) (c : Call F)
      → hash_of h ≡ some old
      → (headers_changed N h new c ≡ c)
        ⊎ ((h ≡ header_hash old) × (headers_changed N h new c ≡ with_headers new c))
  changed-cases no_headers old new c e = inl refl
  changed-cases (header_hash hash) old new c e = inr (ground arith, refl)
  changed-cases (header_array items) old new c e = cc
  changed-cases (header_string text) old new c e = cc

  changed-same :
      (h : Headers) (old : List (Bytes × Value)) (c : Call F)
      → c.easy.opts.headers ≡ h
      → hash_of h ≡ some old
      → headers_changed N h old c ≡ c
  changed-same no_headers old c here e = refl
  changed-same (header_hash hash) old c here e =
      let same : header_hash old ≡ c.easy.opts.headers = ground arith in
      ap (λ h. record c { easy = record (c.easy) { opts = record (c.easy.opts) { headers = h } } })
        same
  changed-same (header_array items) old c here e = cc
  changed-same (header_string text) old c here e = cc

  infile_long-raise :
      (r : Result ℤ) (c : Call F) (x : Exn)
      → (infile_long N r c).1 ≡ raise x
      → (r ≡ raise x) × ((infile_long N r c).0 ≡ c)
  infile_long-raise (ok n) c x h = cc
  infile_long-raise (raise y) c x h = (ground arith, refl)

  infile_set-raise :
      (size : Value) (c : Call F) (x : Exn)
      → (infile_set N size c).1 ≡ raise x
      → (long_of N size ≡ raise x) × ((infile_set N size c).0 ≡ c)
  infile_set-raise nil c x h = cc
  infile_set-raise qfalse c x h = infile_long-raise (long_of N qfalse) c x h
  infile_set-raise (str s) c x h = infile_long-raise (long_of N (str s)) c x h
  infile_set-raise (int z) c x h = infile_long-raise (long_of N (int z)) c x h
  infile_set-raise (object o) c x h = infile_long-raise (long_of N (object o)) c x h

  -- The size of the stream raised, and all that changed is that the headers of the easy, which are a
  -- Hash, have an empty Expect where they had none.
  abbrev pub ExpectLeft : PutData → Exn → (before after : Call F) → Type 0
  ExpectLeft body x before after =
      (old : List (Bytes × Value)) × (new : List (Bytes × Value)) × (before.easy.opts.headers
        ≡ header_hash old)
      × SizeRaises N body old x
      × WithExpect old new
      × (after ≡ with_headers new before)

  -- The size is no long, and the upload is set without it.
  abbrev pub SizeLeft : Exn → (before after : Call F) → Type 0
  SizeLeft x before after =
      (size : Value) × (long_of N size ≡ raise x)
      × (after.upload ≡ true)
      × (after.nobody ≡ false)
      × (after.infilesize ≡ before.infilesize)

  sized-left :
      (body : PutData) (old : List (Bytes × Value)) (c : Call F) (x : Exn)
      → hash_of c.easy.opts.headers ≡ some old
      → (sized N body old).1 ≡ raise x
      → let after = headers_changed N c.easy.opts.headers (sized N body old).0 c in
        (after ≡ c) ⊎ ExpectLeft body x c after
  sized-left body old c x hash raised = elim (sized-raise N body old x raised) [
    | inl same ↦ inl (
        ap (λ headers. headers_changed N c.easy.opts.headers headers c) same
        ∙ changed-same c.easy.opts.headers old c refl hash)
    | inr (asked, same) ↦ elim (changed-cases c.easy.opts.headers old (sized N body old).0 c hash) [
      | inl kept ↦ inl kept
      | inr (here, changed) ↦ inr (
        old,
        (sized N body old).0,
        here,
        asked,
        subst (WithExpect old) (sym same) (default_expect-WithExpect old),
        changed,
      )
    ]
  ]

  -- Where the last step raises, of an upload that is set.
  upload-left :
      (size : Value) (set before : Call F) (result : Call F × Result (Unit {0})) (x : Exn)
      → set.upload ≡ true
      → set.nobody ≡ false
      → set.infilesize ≡ before.infilesize
      → result ≡ infile_set N size set
      → result.1 ≡ raise x
      → SizeLeft x before result.0
  upload-left size set before result x up body infile here h =
      let (long, kept) =
        infile_set-raise size set x (sym (ap (λ (r : Call F × Result (Unit {0})). r.1) here) ∙ h) in
      let after = ap (λ (r : Call F × Result (Unit {0})). r.0) here ∙ kept in
      (
        size,
        long,
        ap (λ (a : Call F). a.upload) after ∙ up,
        ap (λ (a : Call F). a.nobody) after ∙ body,
        ap (λ (a : Call F). a.infilesize) after ∙ infile,
      )

  -- If easy.put_data= raises, whatever the methods of the data raise, then the easy and the options are
  -- as they were; or the `size` of a stream's stat raised, and the Hash of headers that the easy has got
  -- an empty Expect and nothing else changed; or the size could not be made a long, and the upload is set,
  -- but not its size.
  pub put_data_set-raise :
      (body : PutData) (c : Call F) (x : Exn)
      → (put_data_set N body c).1 ≡ raise x
      → ((put_data_set N body c).0 ≡ c)
        ⊎ (ExpectLeft body x c (put_data_set N body c).0 ⊎ SizeLeft x c (put_data_set N body c).0)
  unfolding put_data_set
  put_data_set-raise body c x h = elim (Option-cases (hash_of c.easy.opts.headers)) [
    | inl e ↦ inl (rw (e, put_data_set) refl)
    | inr (old, e) ↦ elim (Result-cases (upload_stream body)) [
      | inr (y, f) ↦ inl (rw (e, f, put_data_set) refl)
      | inl (stream, f) ↦ elim (Result-cases (sized N body old).1) [
        | inr (y, g) ↦
            let here : put_data_set N body c
                ≡ (headers_changed N c.easy.opts.headers (sized N body old).0 c, raise y) =
              rw (e, f, g, put_data_set) refl in
            let same : y ≡ x =
              raise_eq y x (sym (ap (λ (r : Call F × Result (Unit {0})). r.1) here) ∙ h) in
            subst (λ (a : Call F). (a ≡ c) ⊎ (ExpectLeft body x c a ⊎ SizeLeft x c a))
              (sym (ap (λ (r : Call F × Result (Unit {0})). r.0) here))
              (elim (sized-left body old c x e (g ∙ ap raise same)) [
                | inl kept ↦ inl kept
                | inr left ↦ inr (inl left)
              ])
        | inl (size, g) ↦ inr (
            inr (
              upload-left size (upload_set N (sized N body old).0 stream c) c
                (put_data_set N body c) x refl refl refl (rw (e, f, g, put_data_set) refl) h))
      ]
    ]
  ]
    where
      the_raise : Exn → Result (Unit {0})
      the_raise y = raise y

      raise_eq : (y x : Exn) → the_raise y ≡ the_raise x → y ≡ x
      raise_eq y x e = ground arith
