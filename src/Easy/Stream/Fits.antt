-- ===== src/Easy/Stream/Fits.antt =====
-- That the read callback of ext/curb_easy.c stays within the buffer that libcurl gives it.
use curb.Base.{
  ℕ, zero, suc, ◌-◌, ◌≤◌, [], ◌∷◌, Bytes, length, take, drop, arith, Bool-cases, inl, inr, ltb, leb,
  Option-cases,
}
use curb.Easy.{Easy, Upload}
use curb.Easy.Stream.{
  Methods, Read, read_data_handler, read_upload, read_given, copy_read, copy_string, copy_from,
}
use curb.Easy.Stream.Whole.{bytes_of, length-drop}
use curb.Ruby.{Value, nil, qfalse, str, int, object}

abbrev Fits : ℕ → Read → Type 0
Fits size r = length (bytes_of r) ≤ size

length-take : (n : ℕ) (xs : Bytes) → length (take n xs) ≤ n
length-take zero xs = omega arith
length-take (suc n) [] = omega arith
length-take (suc n) (x ∷ xs) = omega (arith, length-take n xs)

copy_read-Fits : (size : ℕ) (r : Easy × Value) → Fits size (copy_read size r).1
copy_read-Fits size (e, str s) = elim (Bool-cases (ltb size (length s))) [
  | inl over ↦ rw over (omega arith)
  | inr fine ↦ rw fine (ground arith)
]
copy_read-Fits size (e, nil) = omega arith
copy_read-Fits size (e, qfalse) = omega arith
copy_read-Fits size (e, int z) = omega arith
copy_read-Fits size (e, object o) = omega arith

read_given-Fits : (size : ℕ) (r : Easy × Value) → Fits size (read_given size r).1
read_given-Fits size (e, nil) = omega arith
read_given-Fits size (e, qfalse) = copy_read-Fits size _
read_given-Fits size (e, str s) = copy_read-Fits size _
read_given-Fits size (e, int z) = copy_read-Fits size _
read_given-Fits size (e, object o) = copy_read-Fits size _

copy_from-Fits : (u : Upload) (size : ℕ) (s : Bytes) (e : Easy) → Fits size (copy_from u size s e).1
copy_from-Fits u size s e = elim (Bool-cases (leb (length s) u.offset)) [
  | inl past ↦ rw past (omega arith)
  | inr within ↦ elim (Bool-cases (leb (length s - u.offset) size)) [
    | inl short ↦ rw (within, short) (ground (arith, length-drop u.offset s (ground arith)))
    | inr long ↦ rw (within, long) (length-take size (drop u.offset s))
  ]
]

copy_string-Fits : (u : Upload) (size : ℕ) (r : Easy × Value) → Fits size (copy_string u size r).1
copy_string-Fits u size (e, str s) = copy_from-Fits u size s e
copy_string-Fits u size (e, nil) = omega arith
copy_string-Fits u size (e, qfalse) = omega arith
copy_string-Fits u size (e, int z) = omega arith
copy_string-Fits u size (e, object o) = omega arith

module _ (m : Methods) where
  read_upload-Fits : (u : Upload) (size : ℕ) (e : Easy) → Fits size (read_upload m u size e).1
  read_upload-Fits u size e = elim (Bool-cases (m.responds_to_read u.stream)) [
    | inl reads ↦ rw reads (read_given-Fits size _)
    | inr other ↦ elim (Bool-cases (m.responds_to_to_s u.stream)) [
      | inl prints ↦ rw (other, prints) (copy_string-Fits u size _)
      | inr neither ↦ rw (other, neither) (omega arith)
    ]
  ]

  -- Whatever the methods of the stream give or raise, and wherever the offset stands, the read
  -- callback copies at most as many bytes as libcurl asked for.
  pub read_data_handler-Fits :
      (size : ℕ) (e : Easy) → length (bytes_of (read_data_handler m size e).1) ≤ size
  unfolding read_data_handler
  read_data_handler-Fits size e = elim (Option-cases e.opts.upload) [
    | inl no_upload ↦ rw (no_upload, read_data_handler) (omega arith)
    | inr (u, held) ↦ rw (held, read_data_handler) (read_upload-Fits u size _)
  ]
