-- ===== src/Network/Rules/Lists.antt =====
-- The list loops of curb_normalize_host_list and curb_normalize_cidr_list of ext/curb_easy.c.
use curb.Base.{
  ◌≡◌, refl, inl, inr, true, false, ◌||◌, List, [], ◌∷◌, ◌++◌, Bytes, bytes_eq, bytes_eq_refl, ◌∙◌,
  subst, bytes_eq_comm, All, All-append, All-imp, Exists, arith, Bool-cases,
}
use curb.Ruby.{Result, ok, Result-cases}
use curb.Network.Rules.{array_includes_string, push_new, normalize_from}

-- curb_array_includes_string as a predicate.
abbrev pub Has : List Bytes → Bytes → Type 0
Has list x = array_includes_string list x ≡ true

-- No entry equals a later one.
abbrev pub Distinct : List Bytes → Type 0
Distinct [] = Unit {0}
Distinct (x ∷ xs) = (array_includes_string xs x ≡ false) × Distinct xs

includes-append :
    (list : List Bytes) (y x : Bytes)
    → array_includes_string (list ++ y ∷ []) x ≡ (array_includes_string list x || bytes_eq y x)
unfolding array_includes_string
includes-append [] y x = ground arith
includes-append (z ∷ zs) y x = ground (arith, includes-append zs y x)

not-includes-nil : (y : Bytes) → array_includes_string [] y ≡ false
unfolding array_includes_string
not-includes-nil y = refl

not-includes-cons :
    (z : Bytes) (zs : List Bytes) (y : Bytes)
    → array_includes_string (z ∷ zs) y ≡ false
    → (bytes_eq z y ≡ false) × (array_includes_string zs y ≡ false)
unfolding array_includes_string
not-includes-cons z zs y h = ground arith

Distinct-append :
    (list : List Bytes) (y : Bytes)
    → array_includes_string list y ≡ false
    → Distinct list
    → Distinct (list ++ y ∷ [])
Distinct-append [] y h d = (not-includes-nil y, tt)
Distinct-append (z ∷ zs) y h d = (
  rw (includes-append zs y z, d.0) (bytes_eq_comm y z ∙ parts.0),
  Distinct-append zs y parts.1 d.1,
)
  where
    parts : (bytes_eq z y ≡ false) × (array_includes_string zs y ≡ false)
    parts = not-includes-cons z zs y h

push_new-Distinct : (list : List Bytes) (y : Bytes) → Distinct list → Distinct (push_new list y)
unfolding push_new
push_new-Distinct list y d = elim (Bool-cases (array_includes_string list y)) [
  | inl old ↦ rw old d
  | inr new ↦ rw new (Distinct-append list y new d)
]

push_new-Has : (list : List Bytes) (y : Bytes) → Has (push_new list y) y
unfolding push_new
push_new-Has list y = elim (Bool-cases (array_includes_string list y)) [
  | inl old ↦ rw old old
  | inr new ↦ rw new (rw (includes-append list y y, new) (bytes_eq_refl y))
]

push_new-keeps : (list : List Bytes) (y x : Bytes) → Has list x → Has (push_new list y) x
unfolding push_new
push_new-keeps list y x h = ground (arith, includes-append list y x)

module _ (entry : Bytes → Result Bytes) where
  -- The entry of an item stands in the list.
  abbrev pub Kept : List Bytes → Bytes → Type 0
  Kept out item = (y : Bytes) × (entry item ≡ ok y) × Has out y

  abbrev Sourced : List Bytes → Bytes → Type 0
  Sourced items item = (y : Bytes) → entry item ≡ ok y → Exists (λ i. entry i ≡ ok y) items

  pub record IsNormalized (items out : List Bytes) : Type 0 where
    pub distinct : Distinct out
    pub kept : All (Kept out) items
    -- and nothing else stands in it
    pub sources : All (λ y. Exists (λ item. entry item ≡ ok y) items) out

  -- Each entry that is made has its item.
  own_sources : (items : List Bytes) → All (Sourced items) items
  own_sources [] = tt
  own_sources (item ∷ items) = (
    λ y made. inl made,
    All-imp (Sourced items) (Sourced (item ∷ items)) items
        (λ i sourced y made. inr (sourced y made)) (own_sources items),
  )

  push_new-from :
      (P : Bytes → Type 0) (acc : List Bytes) (y : Bytes) → All P acc → P y → All P (push_new acc y)
  unfolding push_new
  push_new-from P acc y h p = elim (Bool-cases (array_includes_string acc y)) [
    | inl old ↦ rw old h
    | inr new ↦ rw new (All-append P acc (y ∷ []) h (p, tt))
  ]

  normalize_from-sources :
      (P : Bytes → Type 0) (acc items out : List Bytes)
      → All P acc
      → All (λ item. (y : Bytes) → entry item ≡ ok y → P y) items
      → normalize_from entry acc items ≡ ok out
      → All P out
  unfolding normalize_from
  normalize_from-sources P acc [] out h made e = subst (All P) same h
    where
      same : acc ≡ out
      same = ground arith
  normalize_from-sources P acc (item ∷ items) out h made e = elim (Result-cases (entry item)) [
    | inr (x, bad) ↦ absurd (ground arith)
    | inl (y, good) ↦
        normalize_from-sources P (push_new acc y) items out
          (push_new-from P acc y h (made.0 y good)) made.1 (ground arith)
  ]

  normalize_from-lem :
      (acc items out : List Bytes)
      → Distinct acc
      → normalize_from entry acc items ≡ ok out
      → (Distinct out × All (Kept out) items) × ((x : Bytes) → Has acc x → Has out x)
  unfolding normalize_from
  normalize_from-lem acc [] out d e =
      subst (λ o. (Distinct o × Unit {0}) × ((x : Bytes) → Has acc x → Has o x)) same
        ((d, tt), λ x h. h)
    where
      same : acc ≡ out
      same = ground arith
  normalize_from-lem acc (item ∷ items) out d e = elim (Result-cases (entry item)) [
    | inr (x, bad) ↦ absurd (ground arith)
    | inl (y, good) ↦
        let (rest, keeps) =
          normalize_from-lem (push_new acc y) items out (push_new-Distinct acc y d)
            (ground arith) in
        (
          (rest.0, ((y, good, keeps y (push_new-Has acc y)), rest.1)),
          λ x h. keeps x (push_new-keeps acc y x h),
        )
  ]

  pub normalize_from-IsNormalized :
      (items out : List Bytes) → normalize_from entry [] items ≡ ok out → IsNormalized items out
  normalize_from-IsNormalized items out e =
      let (both, keeps) = normalize_from-lem [] items out tt e in
      record {
        distinct = both.0;
        kept = both.1;
        sources =
            normalize_from-sources (λ y. Exists (λ item. entry item ≡ ok y) items) [] items out tt
              (own_sources items) e;
      }

  module _ (P : Bytes → Type 0) (entry-P : (item y : Bytes) → entry item ≡ ok y → P y) where
    pub normalize_from-All :
        (acc items out : List Bytes)
        → All P acc
        → normalize_from entry acc items ≡ ok out
        → All P out
    unfolding normalize_from
    normalize_from-All acc [] out h e = subst (All P) same h
      where
        same : acc ≡ out
        same = ground arith
    normalize_from-All acc (item ∷ items) out h e = elim (Result-cases (entry item)) [
      | inr (x, bad) ↦ absurd (ground arith)
      | inl (y, good) ↦
          normalize_from-All (push_new acc y) items out
            (push_new-from P acc y h (entry-P item y good)) (ground arith)
    ]
