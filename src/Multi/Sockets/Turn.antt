-- ===== src/Multi/Sockets/Turn.antt =====
-- The waits of a pass of rb_curl_multi_socket_drive of ext/curb_multi.c, with a scheduler and without,
-- and the loop around the passes.
use curb.Base.{
  ℕ, ◌==◌, Bool, true, false, not, Option, none, some, List, [], ◌∷◌, length, if◌then◌else◌,
}
use curb.Multi.{Libcurl}
use curb.Multi.Run.{Run, and_run, finished}
use curb.Multi.Sockets.{
  wait_events_for_curl_poll, cselect_flags_for_curl_poll, cselect_flags_for_wait_events,
}
use curb.Multi.Sockets.Wait.{Timeval, no_time, timeval, collect_ready}
use curb.Multi.Sockets.Drive.{
  IoSelect, unimplemented, no_array, selected_ios, IoWait, no_event, events, some_event, SingleWait,
  single_events, single_interrupted, single_failed, SocketDriver, Driving, timed_out, fd_ready,
  IoArrays, array_or_empty, io_flags, pushed,
}
use curb.Multi.Sockets.Pass.{
  no_deadline, caught_up, and_with, act, read_and_yield, timer_due, time_to_wait, settle,
  settle_idle, settle_all, settle_forgotten, select_all, io_for_fd,
}
use curb.Ruby.{runtime_error, Result, ok, raise}

module _ {L : Libcurl} (D : SocketDriver L) (self : ℕ) (fuel : ℕ) where
  -- What was made of an IO object: it is there, or is nil, or an exception goes on.
  abbrev pub and_io :
      Driving L × Result Bool
      → (Driving L → Run (Driving L))
      → (Driving L → Run (Driving L))
      → Run (Driving L)
  and_io (s, ok true) given missing = given s
  and_io (s, ok false) given missing = missing s
  and_io (s, raise x) given missing = some (s, raise x)

  -- One socket, without a scheduler: rb_wait_for_single_fd
  abbrev pub after_single : (fd what : ℕ) → SingleWait → Driving L → Run (Driving L)
  after_single fd what single_failed s = some (s, raise runtime_error)
  after_single fd what single_interrupted s = finished s
  after_single fd what (single_events n) s =
      if n == 0
      then settle_idle D self fuel s
      else settle D self fuel (fd_ready fd what (cselect_flags_for_wait_events n)) s

  unfoldable pub wait_single_fd : (fd what : ℕ) → Timeval → Driving L → Run (Driving L)
  wait_single_fd fd what tv (w, ctx) =
      let r = D.wait_single fd (wait_events_for_curl_poll what) tv w in
      after_single fd what r.1 (caught_up D self (r.0, ctx))

  -- One socket, with a scheduler
  abbrev pub after_io_wait : (fd what : ℕ) → IoWait → Driving L → Run (Driving L)
  after_io_wait fd what no_event s = settle_idle D self fuel s
  after_io_wait fd what some_event s =
      settle D self fuel (fd_ready fd what (cselect_flags_for_curl_poll what)) s
  after_io_wait fd what (events n) s =
      if cselect_flags_for_wait_events n == 0
      then settle_idle D self fuel s
      else settle D self fuel (fd_ready fd what (cselect_flags_for_wait_events n)) s

  abbrev pub io_wait_one : (fd what : ℕ) → Timeval → Driving L → Run (Driving L)
  io_wait_one fd what tv (w, ctx) =
      and_with D self ctx (D.io_wait fd (wait_events_for_curl_poll what) tv w)
        (after_io_wait fd what)

  unfoldable pub wait_one : (fd what : ℕ) → Timeval → Driving L → Run (Driving L)
  wait_one fd what tv s =
      if not (D.has_scheduler s.0)
      then wait_single_fd fd what tv s
      else if not (D.fd_valid fd s.0)
      then settle_forgotten D self fuel fd s
      else and_io (io_for_fd D self fuel fd what s) (io_wait_one fd what tv)
          (wait_single_fd fd what tv)

  -- Several sockets: a wait on the first for the scheduler's sake, and a look at all of them.
  abbrev pub io_wait_first : (tracked fd what : ℕ) → Driving L → Timeval → Run (Driving L)
  io_wait_first tracked fd what (w, ctx) tv =
      and_with D self ctx (D.io_wait fd (wait_events_for_curl_poll what) tv w)
        (λ r. select_all D self fuel tracked no_time)

  unfoldable pub wait_first : (tracked fd what : ℕ) → Timeval → Driving L → Run (Driving L)
  wait_first tracked fd what tv s =
      if not (D.has_scheduler s.0)
      then select_all D self fuel tracked tv s
      else if not (D.fd_valid fd s.0)
      then settle_forgotten D self fuel fd s
      else and_io (io_for_fd D self fuel fd what s) (λ s. io_wait_first tracked fd what s tv)
          (select_all D self fuel tracked tv)

  -- The arrays of IO objects for the scheduler's io_select: `none` where one cannot be had.
  abbrev pub Built : Type 0
  Built = Driving L × Result (Option IoArrays)

  abbrev pub and_built : Driving L × Result Bool → (Driving L → Built) → Built
  and_built (s, ok true) next = next s
  and_built (s, ok false) next = (s, ok none)
  and_built (s, raise x) next = (s, raise x)

  unfoldable pub build_io_select_arrays : List (ℕ × ℕ) → IoArrays → Driving L → Built
  build_io_select_arrays [] arrays s = (s, ok (some arrays))
  build_io_select_arrays ((fd, what) ∷ entries) arrays s = elim (D.fd_valid fd s.0) [
    | false ↦ (s, ok none)
    | true ↦
        and_built (io_for_fd D self fuel fd what s)
          (build_io_select_arrays entries (pushed fd what arrays))
  ]

  abbrev pub settle_fds : List (ℕ × ℕ) → Driving L → Run (Driving L)
  settle_fds [] s = settle_idle D self fuel s
  settle_fds (fd ∷ fds) s = settle_all D self fuel (fd ∷ fds) s

  abbrev pub after_io_select :
      (tracked fd what : ℕ) → Timeval → IoSelect → Driving L → Run (Driving L)
  after_io_select tracked fd what tv unimplemented s = wait_first tracked fd what tv s
  after_io_select tracked fd what tv no_array s = settle_idle D self fuel s
  after_io_select tracked fd what tv (selected_ios r w e) s =
      settle_fds
        (collect_ready
          (io_flags s.1.io_cache (array_or_empty r) (array_or_empty w) (array_or_empty e)) tracked
          s.1.sock_map)
        s

  abbrev pub io_select_built : (tracked fd what : ℕ) → Timeval → Built → Run (Driving L)
  io_select_built tracked fd what tv (s, raise x) = some (s, raise x)
  io_select_built tracked fd what tv (s, ok none) = wait_first tracked fd what tv s
  io_select_built tracked fd what tv ((w, ctx), ok (some a)) =
      and_with D self ctx (D.io_select a.readables a.writables a.exceptables tv w)
        (after_io_select tracked fd what tv)

  unfoldable pub wait_many : (tracked fd what : ℕ) → Timeval → Driving L → Run (Driving L)
  wait_many tracked fd what tv s =
      if D.has_scheduler s.0
      then io_select_built tracked fd what tv (
          build_io_select_arrays s.1.sock_map
            (record { readables = []; writables = []; exceptables = [] }) s)
      else wait_first tracked fd what tv s

  -- No socket: curb_multi_scheduler_sleep
  abbrev pub wait_none : Timeval → Driving L → Run (Driving L)
  wait_none tv (w, ctx) =
      and_with D self ctx (D.scheduler_sleep tv w) (λ u. settle D self fuel timed_out)

  unfoldable pub wait_on : List (ℕ × ℕ) → Timeval → Driving L → Run (Driving L)
  wait_on [] tv s = wait_none tv s
  wait_on ((fd, what) ∷ []) tv s = wait_one fd what tv s
  wait_on ((fd, what) ∷ entry ∷ entries) tv s =
      wait_many (length ((fd, what) ∷ entry ∷ entries)) fd what tv s

  abbrev pub switched : Driving L × Bool → Driving L
  switched ((w, ctx), true) = caught_up D self (D.driver.scheduler_yield w, ctx)
  switched (s, false) = s

  abbrev pub running_of : Driving L → ℕ
  running_of s = (s.0.multis self).running

  -- A timer that is due again lets other fibers run.
  abbrev pub rearmed : Driving L → Driving L
  rearmed s = if running_of s == 0 then s else switched (timer_due D self s)

  -- The body of the loop
  unfoldable pub pass : Driving L → Run (Driving L)
  pass s =
      let d = timer_due D self s in
      if d.1
      then and_run (and_run (act D self none 0 (no_deadline d.0)) (read_and_yield D self fuel))
          (λ s. finished (rearmed s))
      else let t = time_to_wait D self d.0 in wait_on t.0.1.sock_map (timeval t.1) t.0
