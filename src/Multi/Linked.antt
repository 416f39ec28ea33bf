-- ===== src/Multi/Linked.antt =====
-- The two sides of an attachment in ext/curb_multi.c and ext/curb_easy.c: the table of a multi, and
-- the field `multi` of an easy. Here are the invariant and what changing one object asks of it.
pub mod Ops
pub mod Detach
pub mod Close
pub mod Complete
pub mod Perform
use curb.Base.{
  ℕ, ◌≡◌, refl, sym, ◌∙◌, subst, ap, inl, inr, Bool, true, false, none, some, List, [], ◌∷◌, ◌==◌,
  arith, Bool-cases, Option-cases, ==_refl, Option, if◌then◌else◌,
}
use curb.Easy.{Easy}
use curb.Multi.{
  Multi, Libcurl, World, set_easy, set_multi, set_at, has_key, delete_key, keys_of, delete_from,
  has_easy, forget_easy,
}

-- A table has each key once, as an st_table does.
abbrev pub Distinct : List ℕ → Type 0
Distinct [] = Unit
Distinct (k ∷ ks) = (has_key ks k ≡ false) × Distinct ks

has_key-delete_key :
    (keys : List ℕ) (key k : ℕ) → has_key keys k ≡ false → has_key (delete_key keys key) k ≡ false
has_key-delete_key [] key k h = refl
has_key-delete_key (j ∷ ks) key k h = ground (arith, has_key-delete_key ks key k)

has_key-deleted :
    (keys : List ℕ) (key : ℕ) → Distinct keys → has_key (delete_key keys key) key ≡ false
has_key-deleted [] key h = refl
has_key-deleted (j ∷ ks) key h = elim (Bool-cases (j == key)) [
  | inl e ↦ ground arith
  | inr e ↦ ground (arith, has_key-deleted ks key)
]

delete_key-Distinct : (keys : List ℕ) (key : ℕ) → Distinct keys → Distinct (delete_key keys key)
delete_key-Distinct [] key h = tt
delete_key-Distinct (j ∷ ks) key h = elim (Bool-cases (j == key)) [
  | inl e ↦ rw e h.1
  | inr e ↦ rw e (has_key-delete_key ks key j h.0, delete_key-Distinct ks key h.1)
]

abbrev pub Tabled : Multi → Type 0
Tabled m = Distinct (keys_of m.attached)

pub forget-has :
    (m : Multi) (easy k : ℕ) → has_easy (forget_easy m easy) k ≡ true → has_easy m k ≡ true
unfolding has_easy forget_easy
forget-has m easy k h = elim (Option-cases m.attached) [
  | inl e ↦ ground arith
  | inr (keys, e) ↦ elim (Bool-cases (has_key keys k)) [
    | inl t ↦ rw e t
    | inr f ↦ ground (arith, has_key-delete_key keys easy k f)
  ]
]

pub forget-gone : (m : Multi) (easy : ℕ) → Tabled m → has_easy (forget_easy m easy) easy ≡ true → ⊥
unfolding has_easy forget_easy
forget-gone m easy tabled h = elim (Option-cases m.attached) [
  | inl e ↦ ground arith
  | inr (keys, e) ↦ ground (arith, has_key-deleted keys easy)
]

pub forget-Tabled : (m : Multi) (easy : ℕ) → Tabled m → Tabled (forget_easy m easy)
unfolding forget_easy
forget-Tabled m easy tabled = elim (Option-cases m.attached) [
  | inl e ↦ rw e tt
  | inr (keys, e) ↦
      rw e (delete_key-Distinct keys easy (subst (λ t. Distinct (keys_of t)) e tabled))
]

module _ {L : Libcurl} where
  -- Each easy of a table points back to the multi of that table.
  abbrev pub Linked : World L → Type 0
  Linked w =
      ((m k : ℕ) → has_easy (w.multis m) k ≡ true → (w.easies k).multi ≡ some m)
      × ((m : ℕ) → Tabled (w.multis m))

  -- What a new state of an easy must satisfy, and a new state of a multi.
  pub set_easy-Linked :
      (w : World L) (easy : ℕ) (e : Easy)
      → Linked w
      → ((m : ℕ) → has_easy (w.multis m) easy ≡ true → e.multi ≡ some m)
      → Linked (set_easy w easy e)
  set_easy-Linked w easy e linked back = (
    λ m k h. elim (Bool-cases (k == easy)) [
      | inl same ↦ ground (arith, back m)
      | inr other ↦ ground (arith, linked.0 m k)
    ],
    linked.1,
  )

  pub set_multi-Linked :
      (w : World L) (self : ℕ) (m : Multi)
      → Linked w
      → Tabled m
      → ((k : ℕ) → has_easy m k ≡ true → (w.easies k).multi ≡ some self)
      → Linked (set_multi w self m)
  set_multi-Linked w self m linked tabled back = (
    λ j k h. elim (Bool-cases (j == self)) [
      | inl same ↦ ground (arith, back k)
      | inr other ↦ ground (arith, linked.0 j k)
    ],
    λ j. elim (Bool-cases (j == self)) [
      | inl same ↦ rw same tabled
      | inr other ↦ rw other (linked.1 j)
    ],
  )
