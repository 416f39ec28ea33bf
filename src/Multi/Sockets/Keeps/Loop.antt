-- ===== src/Multi/Sockets/Keeps/Loop.antt =====
-- What the loop around the passes of ext/curb_multi.c keeps, and with it
-- ruby_curl_multi_socket_perform_impl, whether they raise or not.
use curb.Base.{
  ℕ, zero, suc, ◌==◌, Bool, true, false, none, some, List, [], ◌∷◌, length, inl, inr, Bool-cases,
}
use curb.Multi.{Libcurl, World}
use curb.Multi.Attach.{ensure_handle}
use curb.Multi.Loop.{source_cleared, autoclose_if_enabled}
use curb.Multi.Loop.Keeps.{autoclose_if_enabled-Keeps, source_cleared-Keeps}
use curb.Multi.Run.{Run, and_run, finished, Leaves, and_run-Leaves, if-Leaves, case-Leaves}
use curb.Multi.Sockets.Wait.{Timeval, timeval}
use curb.Multi.Sockets.Drive.{SocketDriver, Driving, IoArrays, timed_out}
use curb.Multi.Sockets.Pass.{no_deadline, act, read_and_yield, timer_due, time_to_wait, settle}
use curb.Multi.Sockets.Perform.{
  Hooks, new_context, while_socket_running, socket_drive, with_hooks, ensured, with_handle,
  socket_perform_impl,
}
use curb.Multi.Sockets.Turn.{
  build_io_select_arrays, wait_first, wait_many, wait_on, switched, running_of, rearmed, pass,
}
use curb.Multi.Sockets.Keeps.{
  SocketKeeps, Held, and_with-Keeps, act-Keeps, read_and_yield-Keeps, timer_due-Keeps,
  time_to_wait-Keeps, settle-Keeps,
}
use curb.Multi.Sockets.Keeps.Waits.{
  Steps, wait_one-Keeps, wait_first-Keeps, build_io_select_arrays-Keeps, io_select_built-Keeps,
}
use curb.Ruby.{Result, ok, raise}

module _ {L : Libcurl} (D : SocketDriver L) (self : ℕ) (P : World L → Type 0)
    (S : SocketKeeps D self P) where
  -- `P` of the world of a perform.
  abbrev pub HeldWith : World L × Hooks → Type 0
  HeldWith s = P s.0

  module _ (fuel : ℕ) where
    wait_many-Keeps :
        (tracked fd what : ℕ) (tv : Timeval)
        → Steps D self P S fuel (wait_many D self fuel tracked fd what tv)
    unfolding wait_many
    wait_many-Keeps tracked fd what tv s kept =
        let none_yet : IoArrays = record { readables = []; writables = []; exceptables = [] } in
        if-Leaves (Held D self P S) (D.has_scheduler s.0) _
          (wait_first D self fuel tracked fd what tv s)
          (io_select_built-Keeps D self P S fuel tracked fd what tv
            (build_io_select_arrays D self fuel s.1.sock_map none_yet s)
            (build_io_select_arrays-Keeps D self P S fuel s.1.sock_map none_yet s kept))
          (wait_first-Keeps D self P S fuel tracked fd what tv s kept)

    wait_on-Keeps :
        (entries : List (ℕ × ℕ)) (tv : Timeval)
        → Steps D self P S fuel (wait_on D self fuel entries tv)
    unfolding wait_on
    wait_on-Keeps [] tv (w, ctx) kept =
        and_with-Keeps D self P S ctx (D.scheduler_sleep tv w) (λ u. settle D self fuel timed_out)
          (S.sleeps tv w kept) (λ u. settle-Keeps D self P S fuel timed_out)
    wait_on-Keeps ((fd, what) ∷ []) tv s kept = wait_one-Keeps D self P S fuel fd what tv s kept
    wait_on-Keeps ((fd, what) ∷ entry ∷ entries) tv s kept =
        wait_many-Keeps (length ((fd, what) ∷ entry ∷ entries)) fd what tv s kept

    switched-Keeps : (r : Driving L × Bool) → P r.0.0 → P (switched D self fuel r).0
    switched-Keeps ((w, ctx), true) kept =
        S.hears (D.driver.scheduler_yield w) (S.driver.switches w kept)
    switched-Keeps (s, false) kept = kept

    rearmed-Keeps : (s : Driving L) → P s.0 → P (rearmed D self fuel s).0
    rearmed-Keeps s kept = elim (Bool-cases (running_of D self fuel s == 0)) [
      | inl e ↦ rw (e, rearmed) kept
      | inr e ↦
          rw (e, rearmed) (switched-Keeps (timer_due D self s) (timer_due-Keeps D self P S s kept))
    ]

    pass-Keeps : Steps D self P S fuel (pass D self fuel)
    unfolding pass
    pass-Keeps s kept =
        let d = timer_due D self s in
        let kept' = timer_due-Keeps D self P S s kept in
        let t = time_to_wait D self d.0 in
        if-Leaves (Held D self P S) d.1 _ (wait_on D self fuel t.0.1.sock_map (timeval t.1) t.0)
          (and_run-Leaves (Held D self P S)
            (and_run (act D self none 0 (no_deadline d.0)) (read_and_yield D self fuel))
            (λ s. finished (rearmed D self fuel s))
            (and_run-Leaves (Held D self P S) (act D self none 0 (no_deadline d.0))
              (read_and_yield D self fuel) (act-Keeps D self P S none 0 (no_deadline d.0) kept')
              (read_and_yield-Keeps D self P S fuel))
            rearmed-Keeps)
          (wait_on-Keeps t.0.1.sock_map (timeval t.1) t.0 (time_to_wait-Keeps D self P S d.0 kept'))

    while_socket_running-Keeps :
        (passes : ℕ) → Steps D self P S fuel (while_socket_running D self fuel passes)
    unfolding while_socket_running
    while_socket_running-Keeps zero s kept = tt
    while_socket_running-Keeps (suc passes) s kept =
        case-Leaves (Held D self P S) (running_of D self fuel s == 0) (finished s)
          (and_run (pass D self fuel s) (while_socket_running D self fuel passes)) kept
          (and_run-Leaves (Held D self P S) (pass D self fuel s)
            (while_socket_running D self fuel passes) (pass-Keeps s kept)
            (while_socket_running-Keeps passes))

    socket_drive-Keeps : (times : ℕ) → Steps D self P S fuel (socket_drive D self fuel times)
    unfolding socket_drive
    socket_drive-Keeps zero s kept = tt
    socket_drive-Keeps (suc times) s kept =
        let reads : Steps D self P S fuel (read_and_yield D self fuel) =
          read_and_yield-Keeps D self P S fuel in
        and_run-Leaves (Held D self P S) (act D self none 0 s) _
          (act-Keeps D self P S none 0 s kept)
          λ s kept.
            and_run-Leaves (Held D self P S) (read_and_yield D self fuel s) _ (reads s kept)
              λ s kept.
                and_run-Leaves (Held D self P S) (while_socket_running D self fuel fuel s) _
                  (while_socket_running-Keeps fuel s kept)
                  λ s kept.
                    and_run-Leaves (Held D self P S) (read_and_yield D self fuel s) _ (reads s kept)
                      λ s kept.
                        case-Leaves (Held D self P S) (running_of D self fuel s == 0) (finished s)
                          (socket_drive D self fuel times s) kept (socket_drive-Keeps times s kept)

  pub with_hooks-Keeps :
      (hooks : Hooks) (run : Run (World L))
      → Leaves P run
      → Leaves HeldWith (with_hooks D self hooks run)
  with_hooks-Keeps hooks none leaves = tt
  with_hooks-Keeps hooks (some (w, r)) leaves = leaves

  ensured-Keeps :
      (run : Run (Driving L)) → Leaves (Held D self P S) run → Leaves HeldWith (ensured D self run)
  ensured-Keeps none leaves = tt
  ensured-Keeps (some ((w, ctx), r)) leaves = leaves

  with_handle-Keeps :
      (fuel : ℕ) (hooks : Hooks) (r : World L × Result (Unit {0}))
      → P r.0
      → Leaves HeldWith (with_handle D self fuel hooks r)
  with_handle-Keeps fuel hooks (w, raise x) kept = kept
  with_handle-Keeps fuel hooks (w, ok u) kept =
      let s : Driving L = (source_cleared D.driver self w, new_context) in
      let run = socket_drive D self fuel fuel s in
      and_run-Leaves HeldWith (ensured D self run)
        (λ s. with_hooks D self s.1 (autoclose_if_enabled D.driver self s.0))
        (ensured-Keeps run
          (socket_drive-Keeps fuel fuel s (source_cleared-Keeps D.driver self P S.driver w kept)))
        (λ s kept.
          with_hooks-Keeps s.1 (autoclose_if_enabled D.driver self s.0)
            (autoclose_if_enabled-Keeps D.driver self P S.driver s.0 kept))

  pub socket_perform_impl-Keeps :
      (fuel : ℕ) (w : World L) (hooks : Hooks)
      → P (ensure_handle self w).0
      → Leaves HeldWith (socket_perform_impl D self fuel (w, hooks))
  unfolding socket_perform_impl
  socket_perform_impl-Keeps fuel w hooks kept =
      with_handle-Keeps fuel hooks (ensure_handle self w) kept
