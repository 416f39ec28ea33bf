-- ===== src/Request/PutData/Sizes.antt =====
-- What is known of the size of the data of a PUT, and what asking for it leaves in the headers
-- (easy.put_data= of ext/curb_easy.c).
use curb.Base.{
  true, false, ◌&&◌, none, some, List, [], ◌∷◌, Bytes, bytes_eq, bytes_eq_sound, bytes_eq_refl,
  if◌then◌else◌, ◌≡◌, refl, sym, ◌∙◌, ap, subst, arith, inl, inr, ◌⊎◌, Bool-cases,
}
use curb.PostField.{is_nil}
use curb.Request.PutData.{
  Stat, stat_size, stat_raises, no_stat, nil_stat, Stream, PutData, stream_data, no_data, text_data,
  object_data, Numbers, header, set_header, content_length, transfer_encoding, expect,
  default_expect, header_size, stream_size, sized,
}
use curb.Ruby.{Exn, Value, nil, qfalse, str, int, object, ok, raise}

header-set :
    (headers : List (Bytes × Value)) (key : Bytes) (value : Value) (k : Bytes)
    → header (set_header headers key value) k ≡ (if bytes_eq key k then value else header headers k)
header-set [] key value k = refl
header-set ((j, v) ∷ headers) key value k =
    let rest = header-set headers key value k in
    elim (Bool-cases (bytes_eq j key)) [
      | inl e ↦ rw e (
          subst
            (λ i.
              (if bytes_eq j k then value else header headers k)
              ≡ (if bytes_eq i k then value else if bytes_eq j k then v else header headers k))
            (bytes_eq_sound j key e) (ground arith))
      | inr e ↦ elim (Bool-cases (bytes_eq j k)) [
        | inl f ↦
            let other : bytes_eq key k ≡ true → ⊥ = λ g.
              let same = bytes_eq_sound j k f ∙ sym (bytes_eq_sound key k g) in
              true_false (sym (subst (λ i. bytes_eq j i ≡ true) same (bytes_eq_refl j)) ∙ e) in
            rw (e, f) (ground (arith, other))
        | inr f ↦ rw (e, f) rest
      ]
    ]
  where
    true_false : true ≡ false → ⊥
    true_false t = cc

-- The headers, with an empty Expect if there was none.
abbrev pub WithExpect : List (Bytes × Value) → List (Bytes × Value) → Type 0
WithExpect old new =
    (key : Bytes)
    → header new key
      ≡ (if bytes_eq expect key && is_nil (header old expect) then str [] else header old key)

pub default_expect-WithExpect : (old : List (Bytes × Value)) → WithExpect old (default_expect old)
default_expect-WithExpect old key = elim (Bool-cases (is_nil (header old expect))) [
  | inl e ↦ rw e (header-set old expect (str []) key ∙ ground arith)
  | inr e ↦ rw e (ground arith)
]

is_nil-nil : (v : Value) → is_nil v ≡ true → v ≡ nil
is_nil-nil nil h = refl
is_nil-nil qfalse h = cc
is_nil-nil (str s) h = cc
is_nil-nil (int z) h = cc
is_nil-nil (object o) h = cc

module _ (N : Numbers) where
  -- The size of a stream is asked for where its headers have no Content-Length, and raises.
  abbrev pub SizeRaises : PutData → List (Bytes × Value) → Exn → Type 0
  SizeRaises body headers x =
      (s : Stream) × (body ≡ stream_data s)
      × (s.stat ≡ stat_size (raise x))
      × (header headers content_length ≡ nil)

  header_size-same :
      (headers : List (Bytes × Value)) (x : Exn)
      → (header_size N headers).1 ≡ raise x
      → (header_size N headers).0 ≡ headers
  header_size-same headers x h =
      elim (Bool-cases
        (is_nil (header headers content_length) && is_nil (header headers transfer_encoding))) [
          | inl e ↦ absurd (ground arith)
          | inr e ↦ ground arith
        ]

  stream_size-raise :
      (stat : Stat) (headers : List (Bytes × Value)) (x : Exn)
      → (stream_size N stat headers).1 ≡ raise x
      → ((stream_size N stat headers).0 ≡ headers)
        ⊎ ((stat ≡ stat_size (raise x))
            × (header headers content_length ≡ nil)
            × ((stream_size N stat headers).0 ≡ default_expect headers))
  unfolding stream_size
  stream_size-raise no_stat headers x h = inl (header_size-same headers x h)
  stream_size-raise nil_stat headers x h = inl (header_size-same headers x h)
  stream_size-raise (stat_raises y) headers x h = inl refl
  stream_size-raise (stat_size size) headers x h =
      elim (Bool-cases (is_nil (header headers content_length))) [
        | inl e ↦
            let raised : size ≡ raise x = ground arith in
            inr (ap stat_size raised, is_nil-nil _ e, ground arith)
        | inr e ↦ inl (ground arith)
      ]

  pub sized-raise :
      (body : PutData) (headers : List (Bytes × Value)) (x : Exn)
      → (sized N body headers).1 ≡ raise x
      → ((sized N body headers).0 ≡ headers)
        ⊎ (SizeRaises body headers x × ((sized N body headers).0 ≡ default_expect headers))
  unfolding sized
  sized-raise no_data headers x h = inl refl
  sized-raise (stream_data s) headers x h = elim (stream_size-raise s.stat headers x h) [
    | inl same ↦ inl same
    | inr (raises, unset, same) ↦ inr ((s, refl, raises, unset), same)
  ]
  sized-raise (text_data text) headers x h = absurd (ground arith)
  sized-raise (object_data none) headers x h = inl refl
  sized-raise (object_data (some (ok text))) headers x h = absurd (ground arith)
  sized-raise (object_data (some (raise y))) headers x h = inl refl
