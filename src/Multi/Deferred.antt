-- ===== src/Multi/Deferred.antt =====
-- The exception that ext/curb_multi.c keeps until no transfer is active.
use curb.Base.{ℕ, Option, none, some, ltb, if◌then◌else◌, ◌≡◌, refl, ◌∙◌, ap, List, [], ◌∷◌, arith}
use curb.Multi.{Multi}
use curb.Ruby.{Exn, Result, ok, raise}

abbrev pub source_or : Option ℕ → Option ℕ → Option ℕ
source_or none old = old
source_or (some source) old = some source

-- The first exception stays.
unfoldable pub stash_multi_exception_if_unset : Exn → Option ℕ → Multi → Multi
stash_multi_exception_if_unset x source m = elim m.deferred_exception [
  | some first ↦ m
  | none ↦ record m {
    deferred_exception = some x;
    deferred_source = source_or source m.deferred_source;
  }
]

unfoldable pub clear_multi_deferred_exception_if_any : Multi → Multi × Option Exn
clear_multi_deferred_exception_if_any m =
    (record m { deferred_exception = none }, m.deferred_exception)

unfoldable pub clear_multi_deferred_exception_source_id_if_any : Multi → Multi
clear_multi_deferred_exception_source_id_if_any m = record m { deferred_source = none }

unfoldable pub raise_multi_deferred_exception_if_idle : Multi → Multi × Result (Unit {0})
raise_multi_deferred_exception_if_idle m = elim m.deferred_exception [
  | none ↦ (m, ok tt)
  | some x ↦
      if ltb 0 m.active then (m, ok tt) else ((clear_multi_deferred_exception_if_any m).0, raise x)
]

-- The exceptions of several callbacks, stashed in order, each with the easy it came from.
abbrev pub stash_all : List (Exn × ℕ) → Multi → Multi
stash_all [] m = m
stash_all ((x, easy) ∷ rest) m = stash_all rest (stash_multi_exception_if_unset x (some easy) m)

stash-kept :
    (x y : Exn) (easy : ℕ) (m : Multi)
    → m.deferred_exception ≡ some x
    → stash_multi_exception_if_unset y (some easy) m ≡ m
unfolding stash_multi_exception_if_unset
stash-kept x y easy m h = rw h refl

stash_all-kept :
    (x : Exn) (rest : List (Exn × ℕ)) (m : Multi)
    → m.deferred_exception ≡ some x
    → stash_all rest m ≡ m
stash_all-kept x [] m h = refl
stash_all-kept x ((y, easy) ∷ rest) m h =
    ap (stash_all rest) (stash-kept x y easy m h) ∙ stash_all-kept x rest m h

stash-first :
    (x : Exn) (easy : ℕ) (m : Multi)
    → m.deferred_exception ≡ none
    → (stash_multi_exception_if_unset x (some easy) m).deferred_exception ≡ some x
unfolding stash_multi_exception_if_unset
stash-first x easy m h = rw (h, stash_multi_exception_if_unset) refl

stash-active :
    (x : Exn) (easy : ℕ) (m : Multi)
    → (stash_multi_exception_if_unset x (some easy) m).active ≡ m.active
unfolding stash_multi_exception_if_unset
stash-active x easy m = ground arith

pub stash-attached :
    (x : Exn) (source : Option ℕ) (m : Multi)
    → (stash_multi_exception_if_unset x source m).attached ≡ m.attached
unfolding stash_multi_exception_if_unset
stash-attached x source m = ground arith

raise-idle :
    (x : Exn) (m : Multi)
    → m.deferred_exception ≡ some x
    → (raise_multi_deferred_exception_if_idle m).1 ≡ (if ltb 0 m.active then ok tt else raise x)
unfolding raise_multi_deferred_exception_if_idle
raise-idle x m h = ground arith

-- Of the exceptions stashed on a multi that has none, the first is raised once no transfer is active,
-- and while one is active none is.
pub raise-stash_all :
    (x : Exn) (easy : ℕ) (rest : List (Exn × ℕ)) (m : Multi)
    → m.deferred_exception ≡ none
    → (raise_multi_deferred_exception_if_idle (stash_all ((x, easy) ∷ rest) m)).1
      ≡ (if ltb 0 m.active then ok tt else raise x)
raise-stash_all x easy rest m h =
    let first = stash_multi_exception_if_unset x (some easy) m in
    ap (λ (m' : Multi). (raise_multi_deferred_exception_if_idle m').1)
      (stash_all-kept x rest first (stash-first x easy m h))
    ∙ raise-idle x first (stash-first x easy m h)
    ∙ ap (λ n. if ltb 0 n then ok tt else raise x) (stash-active x easy m)
