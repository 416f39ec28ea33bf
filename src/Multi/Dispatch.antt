-- ===== src/Multi/Dispatch.antt =====
-- ruby_curl_multi_perform of ext/curb_multi.c as a whole: the guard around the loop that waits through
-- the fiber scheduler, if there is one, and else around the select loop.
use curb.Base.{
  ℕ, ◌+◌, ◌<◌, none, some, Bool, true, false, if◌then◌else◌, ◌≡◌, refl, ◌∙◌, ap, inl, inr, ◌⊎◌,
  Bool-cases,
}
use curb.Multi.{Multi, Libcurl, World, set_multi}
use curb.Multi.Active.{set_at-same}
use curb.Multi.Attach.{ensure_handle}
use curb.Multi.Loop.{source_cleared, perform_impl}
use curb.Multi.Loop.Ends.{Finite}
use curb.Multi.Loop.Drain.{perform_impl-Ends}
use curb.Multi.Perform.{idle, perform_guard_ensure}
use curb.Multi.Run.{Run, Ends, if-Ends, Leaves}
use curb.Multi.Sockets.Drive.{SocketDriver}
use curb.Multi.Sockets.Perform.{Hooks, with_hooks, socket_perform_impl}
use curb.Multi.Sockets.Ends.{SocketFinite}
use curb.Multi.Sockets.Ends.Loop.{with_hooks-Ends, socket_perform_impl-Ends}
use curb.Ruby.{runtime_error, ok, raise}

module _ {L : Libcurl} (D : SocketDriver L) (self : ℕ) where
  -- The loop is chosen before the multi is marked as performing.
  unfoldable pub chosen_impl : Bool → ℕ → World L × Hooks → Run (World L × Hooks)
  chosen_impl has_scheduler fuel (w, hooks) =
      if has_scheduler
      then socket_perform_impl D self fuel (w, hooks)
      else with_hooks D self hooks (perform_impl D.driver self fuel w)

  abbrev pub marked : World L → World L
  marked w = set_multi w self (record (w.multis self) { perform_active = true })

  abbrev pub guard_left : Run (World L × Hooks) → Run (World L × Hooks)
  guard_left none = none
  guard_left (some ((w, hooks), r)) = some ((perform_guard_ensure self w, hooks), r)

  unfoldable pub multi_perform : ℕ → World L × Hooks → Run (World L × Hooks)
  multi_perform fuel (w, hooks) =
      if (w.multis self).perform_active
      then some ((w, hooks), raise runtime_error)
      else guard_left (chosen_impl (D.has_scheduler w) fuel (marked w, hooks))

  -- No transfer runs, and the multi is marked neither as performing nor as in a callback.
  abbrev pub AtRest : World L × Hooks → Type 0
  AtRest (w, hooks) = (w.multis self).running ≡ 0

  abbrev pub Unmarked : World L × Hooks → Type 0
  Unmarked (w, hooks) =
      ((w.multis self).perform_active ≡ false)
      × ((w.multis self).callback_active ≡ false)
      × ((w.multis self).allow_close_during_perform ≡ false)

  ensured-Unmarked : (w : World L) (hooks : Hooks) → Unmarked (perform_guard_ensure self w, hooks)
  unfolding perform_guard_ensure
  ensured-Unmarked w hooks =
      let e = set_at-same w.multis self (idle (w.multis self)) in
      (
        ap (λ (m : Multi). m.perform_active) e,
        ap (λ (m : Multi). m.callback_active) e,
        ap (λ (m : Multi). m.allow_close_during_perform) e,
      )

  guard_left-Ends :
      (run : Run (World L × Hooks))
      → Ends run AtRest
      → Ends (guard_left run) AtRest × Leaves Unmarked (guard_left run)
  unfolding perform_guard_ensure
  guard_left-Ends none ends = absurd ends
  guard_left-Ends (some ((w, hooks), ok u)) ends = (
    ap (λ (m : Multi). m.running) (set_at-same w.multis self (idle (w.multis self))) ∙ ends,
    ensured-Unmarked w hooks,
  )
  guard_left-Ends (some ((w, hooks), raise x)) ends = (tt, ensured-Unmarked w hooks)

  module _ (left : World L → ℕ) (G : Finite D.driver self left) (F : SocketFinite D self left) where
    chosen-Ends :
        (has_scheduler : Bool) (fuel : ℕ) (w : World L) (hooks : Hooks)
        → left (source_cleared D.driver self (ensure_handle self w).0) + 1 < fuel
        → Ends (chosen_impl has_scheduler fuel (w, hooks)) AtRest
    unfolding chosen_impl
    chosen-Ends has_scheduler fuel w hooks enough =
        if-Ends AtRest has_scheduler _ _
          (socket_perform_impl-Ends D self left F fuel w hooks enough)
          (with_hooks-Ends D self left F hooks (perform_impl D.driver self fuel w)
            (perform_impl-Ends D.driver self left G fuel w enough))

    -- A perform of a multi that performs already raises and changes nothing. Of any other, if the
    -- transfers need finitely many calls of libcurl and waits, the block and the procs add no work, and
    -- the autoclose of the library (lib/curl/multi.rb), if it does not raise, leaves nothing running, then
    -- a perform comes to its end, with a fiber scheduler and without: the fuel, two more than the calls
    -- and waits to come once the handle is there, is enough. Where nothing is raised no transfer runs
    -- then, and, raised or not, the multi is marked neither as performing nor as in a callback nor as
    -- open to being closed.
    pub multi_perform-Ends :
        (fuel : ℕ) (w : World L) (hooks : Hooks)
        → left (source_cleared D.driver self (ensure_handle self (marked w)).0) + 1 < fuel
        → (((w.multis self).perform_active ≡ true)
            × (multi_perform fuel (w, hooks) ≡ some ((w, hooks), raise runtime_error)))
          ⊎ (((w.multis self).perform_active ≡ false)
              × Ends (multi_perform fuel (w, hooks)) AtRest
              × Leaves Unmarked (multi_perform fuel (w, hooks)))
    unfolding multi_perform
    multi_perform-Ends fuel w hooks enough = elim (Bool-cases (w.multis self).perform_active) [
      | inl busy ↦ inl (busy, rw (busy, multi_perform) refl)
      | inr still ↦
          let r =
            guard_left-Ends (chosen_impl (D.has_scheduler w) fuel (marked w, hooks))
              (chosen-Ends (D.has_scheduler w) fuel (marked w) hooks enough) in
          inr (still, rw (still, multi_perform) r.0, rw (still, multi_perform) r.1)
    ]
