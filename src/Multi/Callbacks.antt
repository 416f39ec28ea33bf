-- ===== src/Multi/Callbacks.antt =====
-- What running the callbacks of a finished transfer leaves, whatever they do (ext/curb_multi.c).
use curb.Base.{
  ℕ, ◌≡◌, refl, ◌∙◌, ap, false, ◌&&◌, not, Option, none, some, List, inl, inr, Bool-cases, arith,
}
use curb.Easy.{Easy}
use curb.Multi.{Multi, Libcurl, World, has_easy}
use curb.Multi.Active.{set_at-same}
use curb.Multi.Complete.{
  Info, run_procs, run_completion_callbacks, finish_completion_callbacks, run_proc, and_then,
  raise_own, belongs_to, let_go, flags_clear, started, status_proc,
}
use curb.Ruby.{Exn, Result, ok, raise, Value}

module _ {L : Libcurl} where
  let_go-flag :
      (self easy : ℕ) (w : World L)
      → (w.easies easy).callback_active ≡ false
      → ((let_go self easy w).easies easy).callback_active ≡ false
  let_go-flag self easy w h =
      elim (Bool-cases
        (belongs_to (w.easies easy).multi self && not (has_easy (w.multis self) easy))) [
          | inl e ↦ rw e (
              ap (λ (x : Easy). x.callback_active)
                (set_at-same w.easies easy (record (w.easies easy) { multi = none }))
              ∙ h)
          | inr e ↦ rw e h
        ]

  let_go-multis : (self easy : ℕ) (w : World L) → (let_go self easy w).multis self ≡ w.multis self
  let_go-multis self easy w =
      elim (Bool-cases
        (belongs_to (w.easies easy).multi self && not (has_easy (w.multis self) easy))) [
          | inl e ↦ rw e refl
          | inr e ↦ rw e refl
        ]

  -- After the callbacks of a finished transfer neither the easy nor the multi is marked as inside a
  -- callback.
  finish-flags :
      (self easy : ℕ) (w : World L)
      → let after = finish_completion_callbacks self easy w in
        ((after.easies easy).callback_active ≡ false)
        × ((after.multis self).callback_active ≡ false)
  unfolding finish_completion_callbacks
  finish-flags self easy w = (
    let_go-flag self easy (flags_clear self easy w) (
        ap (λ (x : Easy). x.callback_active)
          (set_at-same w.easies easy (record (w.easies easy) { callback_active = false }))),
    ap (λ (x : Multi). x.callback_active)
        (let_go-multis self easy (flags_clear self easy w)
          ∙ set_at-same w.multis self (record (w.multis self) { callback_active = false })),
  )

  run_proc-own :
      (call : ℕ → ℕ → World L → World L × Result Value) (self easy : ℕ) (snapshot : List (ℕ × ℕ))
      (x : Exn) (proc : Option ℕ) (w : World L)
      → (run_proc call self easy snapshot (some x) proc w).1 ≡ ok tt
  run_proc-own call self easy snapshot x none w = refl
  run_proc-own call self easy snapshot x (some proc) w = refl

  and_then-ok :
      (r : World L × Result (Unit {0})) (next : World L → World L × Result (Unit {0}))
      → r.1 ≡ ok tt
      → and_then r next ≡ next r.0
  and_then-ok (w, ok u) next h = refl
  and_then-ok (w, raise x) next h = absurd (ground arith)

  run_procs-own :
      (call : ℕ → ℕ → World L → World L × Result Value) (info : World L → Info)
      (self easy result : ℕ) (snapshot : List (ℕ × ℕ)) (w : World L) (x : Exn)
      → (run_procs call info self easy result snapshot (some x) w).1 ≡ raise x
  run_procs-own call info self easy result snapshot w x =
      let first = run_proc call self easy snapshot (some x) (w.easies easy).opts.complete_proc w in
      let status = λ (w' : World L).
        run_proc call self easy snapshot (some x) (status_proc (w'.easies easy) result (info w'))
          w' in
      ap (λ (r : World L × Result (Unit {0})). r.1)
        (and_then-ok first (λ w'. and_then (status w') (raise_own (some x)))
            (run_proc-own call self easy snapshot x (w.easies easy).opts.complete_proc w)
          ∙ and_then-ok (status first.0) (raise_own (some x)) (
              run_proc-own call self easy snapshot x
                (status_proc (first.0.easies easy) result (info first.0)) first.0))

  -- An exception that a write or read callback left on the easy is what finishing the transfer
  -- raises, even if its status procs raise others.
  pub run-own :
      (call : ℕ → ℕ → World L → World L × Result Value) (info : World L → Info)
      (self easy result : ℕ) (snapshot : List (ℕ × ℕ)) (w : World L) (x : Exn)
      → (w.easies easy).callback_error ≡ some x
      → (run_completion_callbacks call info self easy result snapshot w).1 ≡ raise x
  unfolding run_completion_callbacks
  run-own call info self easy result snapshot w x h =
      ap (λ o. (run_procs call info self easy result snapshot o (started self easy w)).1) h
      ∙ run_procs-own call info self easy result snapshot (started self easy w) x
