-- ===== src/Base/Lists.antt =====
-- Lists measured and indexed by native numbers, under the library's names.
use Prim.Native.Nat.{ℕ, zero, suc, ◌+◌}
use mathlib.Core.Path.{◌≡◌}
use mathlib.Core.Logic.{◌⊎◌}
use mathlib.Core.List.{List, [], ◌∷◌, ◌++◌}
use mathlib.Core.Bool.{Bool, true, false}
use curb.Base.Tests.{if◌then◌else◌}
use mathlib.Core.Option.{Option, none, some}
use native.Mathlib.Omega.{arith}

module _ {ℓ} {A : Type ℓ} where
  abbrev pub length : List A → ℕ
  length [] = 0
  length (x ∷ xs) = suc (length xs)

  abbrev pub get_or : List A → ℕ → A → A
  get_or [] i d = d
  get_or (x ∷ xs) zero d = x
  get_or (x ∷ xs) (suc i) d = get_or xs i d

  abbrev pub take : ℕ → List A → List A
  take zero xs = []
  take (suc n) [] = []
  take (suc n) (x ∷ xs) = x ∷ take n xs

  abbrev pub drop : ℕ → List A → List A
  drop zero xs = xs
  drop (suc n) [] = []
  drop (suc n) (x ∷ xs) = drop n xs

  abbrev pub replicate : ℕ → A → List A
  replicate zero a = []
  replicate (suc n) a = a ∷ replicate n a

  abbrev pub any : (A → Bool) → List A → Bool
  any p [] = false
  any p (x ∷ xs) = if p x then true else any p xs

  pub length-append : (xs ys : List A) → length (xs ++ ys) ≡ length xs + length ys
  length-append [] ys = omega arith
  length-append (x ∷ xs) ys = omega (arith, length-append xs ys)

  abbrev pub is_some : Option A → Bool
  is_some none = false
  is_some (some _) = true

  abbrev pub is_none : Option A → Bool
  is_none none = true
  is_none (some _) = false

-- A predicate on every item, which the tactics take apart.
abbrev pub All {κ ℓ} : {Item : Type ℓ} → (Item → Type κ) → (items : List Item) → Type κ
All Fits [] = Unit
All Fits (item ∷ items) = Fits item × All Fits items

module _ {ℓ κ} {A : Type ℓ} (P : A → Type κ) where
  pub All-imp {κ'} :
      (Q : A → Type κ') (items : List A)
      → ((item : A) → P item → Q item)
      → All P items
      → All Q items
  All-imp Q [] weaker all = tt
  All-imp Q (item ∷ items) weaker all = (weaker item all.0, All-imp Q items weaker all.1)

  pub All-append : (items more : List A) → All P items → All P more → All P (items ++ more)
  All-append [] more all rest = rest
  All-append (item ∷ items) more all rest = (all.0, All-append items more all.1 rest)

-- A predicate on some item, with the place kept.
abbrev pub Exists {ℓ} : {A : Type ℓ} → (A → Type 0) → List A → Type 0
Exists P [] = ⊥
Exists P (x ∷ xs) = P x ⊎ Exists P xs

module _ {ℓ} {A : Type ℓ} (p : A → Bool) where
  pub any-true : (xs : List A) → any p xs ≡ true → Exists (λ x. p x ≡ true) xs
  any-true [] h = absurd (ground arith)
  any-true (x ∷ xs) h = ground (arith, any-true xs)
