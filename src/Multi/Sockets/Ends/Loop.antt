-- ===== src/Multi/Sockets/Ends/Loop.antt =====
-- That ruby_curl_multi_socket_perform_impl of ext/curb_multi.c ends, with no transfer running.
use curb.Base.{ℕ, zero, suc, ◌-◌, ◌+◌, ◌≤◌, ◌<◌, ◌==◌, none, some, ◌≡◌, inl, inr, Bool-cases, arith}
use curb.Multi.{Libcurl, World}
use curb.Multi.Attach.{ensure_handle}
use curb.Multi.Loop.{source_cleared, autoclose_if_enabled}
use curb.Multi.Loop.Drain.{autoclose-Ends}
use curb.Multi.Run.{Run, Ends, and_run-Ends, Ends-imp, weight, weight-lighter}
use curb.Multi.Sockets.Drive.{SocketDriver, Driving}
use curb.Multi.Sockets.Pass.{act, read_and_yield}
use curb.Multi.Sockets.Turn.{pass}
use curb.Multi.Sockets.Perform.{
  Hooks, new_context, while_socket_running, socket_drive, ensured, with_hooks, with_handle,
  socket_perform_impl,
}
use curb.Multi.Sockets.Ends.{SocketFinite, act-Ends, read_and_yield-Ends}
use curb.Multi.Sockets.Ends.Passes.{pass-Ends}
use curb.Ruby.{Result, ok, raise}

module _ {L : Libcurl} (D : SocketDriver L) (self : ℕ) (left : World L → ℕ)
    (F : SocketFinite D self left) where
  abbrev running : Driving L → ℕ
  running s = (s.0.multis self).running

  while-Ends :
      (fuel passes : ℕ) (s : Driving L)
      → left s.0 < fuel
      → left s.0 < passes
      → Ends
          (while_socket_running D self fuel passes s)
          (λ t. (left t.0 ≤ left s.0) × (0 < running s → left t.0 < left s.0))
  unfolding while_socket_running
  while-Ends fuel zero s enough rest = absurd (omega arith)
  while-Ends fuel (suc passes) s enough rest = elim (Bool-cases (running s == 0)) [
    | inl e ↦ rw (e, while_socket_running) (omega arith, λ busy. ground arith)
    | inr e ↦
        rw (e, while_socket_running)
          (and_run-Ends _ _ (pass D self fuel s) _
            (pass-Ends D self left F fuel (left s.0) s (omega arith) enough)
            λ t h.
              let some_left = F.tame.bounds s.0 in
              let less : left t.0 < left s.0 = ground arith in
              Ends-imp _ _ (while_socket_running D self fuel passes t)
                (while-Ends fuel passes t (omega arith) (omega arith))
                (λ u k. (omega (arith, k.0), λ busy. omega (arith, k.0))))
  ]

  drive-Ends :
      (fuel times : ℕ) (s : Driving L)
      → left s.0 < fuel
      → weight (left s.0) (running s) < times
      → Ends (socket_drive D self fuel times s) (λ t. running t ≡ 0)
  unfolding socket_drive
  drive-Ends fuel zero s enough rest = absurd (omega arith)
  drive-Ends fuel (suc times) s enough rest =
      and_run-Ends _ _ (act D self none 0 s) _
        (act-Ends D self left F none 0 (left s.0) s (omega arith))
        λ a h.
          and_run-Ends _ _ (read_and_yield D self fuel a) _
            (read_and_yield-Ends D self left F fuel (left s.0 - 1) a h (omega arith))
            λ b k.
              and_run-Ends _ _ (while_socket_running D self fuel fuel b) _
                (while-Ends fuel fuel b (omega arith) (omega arith))
                λ c l.
                  and_run-Ends _ _ (read_and_yield D self fuel c) _
                    (read_and_yield-Ends D self left F fuel (left c.0) c (omega arith)
                      (omega (arith, l.0)))
                    λ d m. elim (Bool-cases (running d == 0)) [
                      | inl e ↦ rw e (ground arith)
                      | inr e ↦ rw e (
                          let some_left = F.tame.bounds s.0 in
                          drive-Ends fuel times d (omega (arith, l.0)) (
                            weight-lighter (left s.0) (running s) (left b.0) (left d.0) (running d)
                              times (omega arith, λ busy. omega arith) (omega (arith, l.0)) rest e))
                    ]

  ensured-Ends :
      (run : Run (Driving L))
      → Ends run (λ t. running t ≡ 0)
      → Ends (ensured D self run) (λ t. (t.0.multis self).running ≡ 0)
  ensured-Ends none ends = ends
  ensured-Ends (some ((w, ctx), ok u)) ends = ends
  ensured-Ends (some ((w, ctx), raise x)) ends = tt

  pub with_hooks-Ends :
      (hooks : Hooks) (run : Run (World L))
      → Ends run (λ w. (w.multis self).running ≡ 0)
      → Ends (with_hooks D self hooks run) (λ t. (t.0.multis self).running ≡ 0)
  with_hooks-Ends hooks none ends = ends
  with_hooks-Ends hooks (some (w, ok u)) ends = ends
  with_hooks-Ends hooks (some (w, raise x)) ends = tt

  with_handle-Ends :
      (fuel : ℕ) (hooks : Hooks) (r : World L × Result (Unit {0}))
      → left (source_cleared D.driver self r.0) + 1 < fuel
      → Ends (with_handle D self fuel hooks r) (λ t. (t.0.multis self).running ≡ 0)
  with_handle-Ends fuel hooks (w, raise x) enough = tt
  with_handle-Ends fuel hooks (w, ok u) enough =
      let s : Driving L = (source_cleared D.driver self w, new_context) in
      and_run-Ends _ _ (ensured D self (socket_drive D self fuel fuel s)) _
        (ensured-Ends (socket_drive D self fuel fuel s)
          (drive-Ends fuel fuel s (omega arith) (ground arith)))
        (λ t h.
          with_hooks-Ends t.1 (autoclose_if_enabled D.driver self t.0)
            (autoclose-Ends D.driver self left F.tame t.0 h))

  -- If the transfers need finitely many calls of libcurl and waits, and the block and the procs add no
  -- work, then performing a multi by socket actions comes to its end, whatever libcurl says of sockets
  -- and timers, whether there is a scheduler or not and which of its hooks it has: the fuel, two more
  -- than the calls and waits to come once the handle is there, is enough, and where nothing is raised no
  -- transfer runs at the end.
  pub socket_perform_impl-Ends :
      (fuel : ℕ) (w : World L) (hooks : Hooks)
      → left (source_cleared D.driver self (ensure_handle self w).0) + 1 < fuel
      → Ends (socket_perform_impl D self fuel (w, hooks)) (λ t. (t.0.multis self).running ≡ 0)
  unfolding socket_perform_impl
  socket_perform_impl-Ends fuel w hooks enough =
      with_handle-Ends fuel hooks (ensure_handle self w) enough
