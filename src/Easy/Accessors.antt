-- ===== src/Easy/Accessors.antt =====
-- Attributes of an easy that are kept as they are given: on or off, procs, and objects of its opts; the
-- macros of ext/curb_macros.h and the methods of ext/curb_easy.c made of them.
pub mod Flags
pub mod Handlers
pub mod Texts
pub mod Objects
pub mod Last
use curb.Base.{ℕ, zero, suc, ◌==◌, ◌<◌, ◌≡◌, refl, List, [], ◌∷◌, length, if◌then◌else◌, arith}

-- An entry of a table, with what stands for one that is not there.
abbrev pub entry {ℓ} : {A : Type ℓ} → A → List A → ℕ → A
entry none_there [] i = none_there
entry none_there (x ∷ xs) zero = x
entry none_there (x ∷ xs) (suc i) = entry none_there xs i

abbrev pub replace {ℓ} : {A : Type ℓ} → List A → ℕ → A → List A
replace [] i y = []
replace (x ∷ xs) zero y = y ∷ xs
replace (x ∷ xs) (suc i) y = x ∷ replace xs i y

pub entry-replace {ℓ} :
    {A : Type ℓ} (none_there : A) (xs : List A) (i j : ℕ) (y : A)
    → j < length xs
    → entry none_there (replace xs j y) i ≡ (if i == j then y else entry none_there xs i)
entry-replace none_there [] i j y below = absurd (omega arith)
entry-replace none_there (x ∷ xs) zero zero y below = ground arith
entry-replace none_there (x ∷ xs) (suc i) zero y below = ground arith
entry-replace none_there (x ∷ xs) zero (suc j) y below = ground arith
entry-replace none_there (x ∷ xs) (suc i) (suc j) y below =
    let rest = entry-replace none_there xs i j y (omega arith) in ground (arith, rest)
