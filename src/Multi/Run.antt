-- ===== src/Multi/Run.antt =====
-- How the loops of ext/curb_multi.c end, and the rules for that. A loop takes fuel, and gives `none`
-- where it is used up; else it gives the state at its end, and what is raised.
use curb.Base.{
  ℕ, suc, ◌+◌, ◌-◌, ◌≤◌, ◌<◌, ◌==◌, Option, none, some, Bool, true, false, if◌then◌else◌, ◌≡◌, inl,
  inr, Bool-cases, arith,
}
use curb.Ruby.{Result, ok, raise}

abbrev pub Run : Type 0 → Type 0
Run S = Option (S × Result (Unit {0}))

module _ {S : Type 0} where
  abbrev pub and_run : Run S → (S → Run S) → Run S
  and_run none next = none
  and_run (some (s, ok u)) next = next s
  and_run (some (s, raise x)) next = some (s, raise x)

  abbrev pub finished : S → Run S
  finished s = some (s, ok tt)

  -- The fuel is enough, and where nothing is raised the state at the end is as said.
  abbrev pub Ends : Run S → (S → Type 0) → Type 0
  Ends none P = ⊥
  Ends (some (s, ok u)) P = P s
  Ends (some (s, raise x)) P = Unit

  pub and_run-Ends :
      (P Q : S → Type 0) (run : Run S) (next : S → Run S)
      → Ends run P
      → ((s : S) → P s → Ends (next s) Q)
      → Ends (and_run run next) Q
  and_run-Ends P Q none next ends rest = ends
  and_run-Ends P Q (some (s, ok u)) next ends rest = rest s ends
  and_run-Ends P Q (some (s, raise x)) next ends rest = tt

  pub Ends-imp : (P Q : S → Type 0) (run : Run S) → Ends run P → ((s : S) → P s → Q s) → Ends run Q
  Ends-imp P Q none ends weaker = ends
  Ends-imp P Q (some (s, ok u)) ends weaker = weaker s ends
  Ends-imp P Q (some (s, raise x)) ends weaker = tt

  -- Whichever way a test goes.
  pub if-Ends :
      (P : S → Type 0) (b : Bool) (x y : Run S) → Ends x P → Ends y P → Ends (if b then x else y) P
  if-Ends P true x y first second = first
  if-Ends P false x y first second = second

  -- What is left, whether the run raised or not; nothing is said where the fuel is used up.
  abbrev pub Leaves : (S → Type 0) → Run S → Type 0
  Leaves P none = Unit
  Leaves P (some (s, r)) = P s

  -- The fuel is enough, and what is left, whether the run raised or not, is as said.
  abbrev pub Gives : (S → Type 0) → Run S → Type 0
  Gives P none = ⊥
  Gives P (some (s, r)) = P s

  pub Ends-Gives : (P Q : S → Type 0) (run : Run S) → Ends run P → Leaves Q run → Gives Q run
  Ends-Gives P Q none ends leaves = ends
  Ends-Gives P Q (some (s, r)) ends leaves = leaves

  pub and_run-Leaves :
      (P : S → Type 0) (run : Run S) (next : S → Run S)
      → Leaves P run
      → ((s : S) → P s → Leaves P (next s))
      → Leaves P (and_run run next)
  and_run-Leaves P none next leaves rest = tt
  and_run-Leaves P (some (s, ok u)) next leaves rest = rest s leaves
  and_run-Leaves P (some (s, raise x)) next leaves rest = leaves

  pub if-Leaves :
      (P : S → Type 0) (b : Bool) (x y : Run S)
      → Leaves P x
      → Leaves P y
      → Leaves P (if b then x else y)
  if-Leaves P true x y first second = first
  if-Leaves P false x y first second = second

  -- The same of a test that computes one side only.
  pub case-Leaves :
      (P : S → Type 0) (b : Bool) (x y : Run S)
      → Leaves P x
      → Leaves P y
      → Leaves P (elim b [ true ↦ x | false ↦ y ])
  case-Leaves P true x y first second = first
  case-Leaves P false x y first second = second

-- What a loop around a loop counts by: what is left, and one if no transfer runs.
abbrev pub weight : (left running : ℕ) → ℕ
weight left running = left + (if running == 0 then 1 else 0)

-- A round that used something up if a transfer ran, and after which one runs, weighs less.
pub weight-lighter :
    (left running left' later running' times : ℕ)
    → (left' ≤ left) × (0 < running → left' < left)
    → later ≤ left'
    → weight left running < suc times
    → (running' == 0) ≡ false
    → weight later running' < times
weight-lighter left running left' later running' times h less rest busy =
    rw busy
      (elim (Bool-cases (running == 0)) [ inl e ↦ ground (arith, h) | inr e ↦ ground (arith, h) ])

pub weight-light :
    (left running fuel n : ℕ) → left ≤ n - 1 → n + 1 < fuel → weight left running < fuel
weight-light left running fuel n less enough = ground arith
