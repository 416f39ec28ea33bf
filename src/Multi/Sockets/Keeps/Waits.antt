-- ===== src/Multi/Sockets/Keeps/Waits.antt =====
-- What the waits of a pass of the socket-action loop of ext/curb_multi.c keep, with a scheduler and
-- without, whether they raise or not.
use curb.Base.{ℕ, ◌==◌, Bool, true, false, not, none, some, List, [], ◌∷◌, inl, inr, Bool-cases}
use curb.Multi.{Libcurl, World}
use curb.Multi.Run.{Run, Leaves, if-Leaves}
use curb.Multi.Sockets.{
  wait_events_for_curl_poll, cselect_flags_for_curl_poll, cselect_flags_for_wait_events,
}
use curb.Multi.Sockets.Wait.{Timeval, no_time, collect_ready}
use curb.Multi.Sockets.Drive.{
  IoSelect, unimplemented, no_array, selected_ios, IoWait, no_event, events, some_event, SingleWait,
  single_events, single_interrupted, single_failed, SocketDriver, Driving, fd_ready, IoArrays,
  array_or_empty, io_flags, pushed,
}
use curb.Multi.Sockets.Pass.{
  caught_up, settle, settle_idle, settle_forgotten, select_all, io_for_fd,
}
use curb.Multi.Sockets.Turn.{
  and_io, after_single, wait_single_fd, after_io_wait, io_wait_one, wait_one, io_wait_first,
  wait_first, Built, and_built, build_io_select_arrays, settle_fds, after_io_select,
  io_select_built,
}
use curb.Multi.Sockets.Keeps.{
  SocketKeeps, Held, and_with-Keeps, settle-Keeps, settle_idle-Keeps, settle_all-Keeps,
  settle_forgotten-Keeps, select_all-Keeps, io_for_fd-Keeps,
}
use curb.Ruby.{Result, ok, raise}

module _ {L : Libcurl} (D : SocketDriver L) (self : ℕ) (P : World L → Type 0)
    (S : SocketKeeps D self P) (fuel : ℕ) where
  -- What a run from any state at which `P` holds leaves.
  abbrev pub Steps : (Driving L → Run (Driving L)) → Type 0
  Steps next = (s : Driving L) → P s.0 → Leaves (Held D self P S) (next s)

  idle-Keeps : Steps (settle_idle D self fuel)
  idle-Keeps = settle_idle-Keeps D self P S fuel

  select-Keeps : (tracked : ℕ) (tv : Timeval) → Steps (select_all D self fuel tracked tv)
  select-Keeps = select_all-Keeps D self P S fuel

  fd_ready-Keeps : (fd what flags : ℕ) → Steps (settle D self fuel (fd_ready fd what flags))
  fd_ready-Keeps fd what flags = settle-Keeps D self P S fuel (fd_ready fd what flags)

  and_io-Keeps :
      (r : Driving L × Result Bool) (given missing : Driving L → Run (Driving L))
      → P r.0.0
      → Steps given
      → Steps missing
      → Leaves (Held D self P S) (and_io D self fuel r given missing)
  and_io-Keeps (s, ok true) given missing kept one two = one s kept
  and_io-Keeps (s, ok false) given missing kept one two = two s kept
  and_io-Keeps (s, raise x) given missing kept one two = kept

  after_single-Keeps :
      (fd what : ℕ) (waited : SingleWait) → Steps (after_single D self fuel fd what waited)
  after_single-Keeps fd what single_failed s kept = kept
  after_single-Keeps fd what single_interrupted s kept = kept
  after_single-Keeps fd what (single_events n) s kept =
      if-Leaves (Held D self P S) (n == 0) (settle_idle D self fuel s) _ (idle-Keeps s kept)
        (fd_ready-Keeps fd what (cselect_flags_for_wait_events n) s kept)

  wait_single_fd-Keeps :
      (fd what : ℕ) (tv : Timeval) → Steps (wait_single_fd D self fuel fd what tv)
  unfolding wait_single_fd
  wait_single_fd-Keeps fd what tv (w, ctx) kept =
      let r = D.wait_single fd (wait_events_for_curl_poll what) tv w in
      after_single-Keeps fd what r.1 (caught_up D self (r.0, ctx))
        (S.hears r.0 (S.single_waits fd (wait_events_for_curl_poll what) tv w kept))

  after_io_wait-Keeps :
      (fd what : ℕ) (waited : IoWait) → Steps (after_io_wait D self fuel fd what waited)
  after_io_wait-Keeps fd what no_event s kept = idle-Keeps s kept
  after_io_wait-Keeps fd what some_event s kept =
      fd_ready-Keeps fd what (cselect_flags_for_curl_poll what) s kept
  after_io_wait-Keeps fd what (events n) s kept =
      if-Leaves (Held D self P S) (cselect_flags_for_wait_events n == 0) (settle_idle D self fuel s)
        _ (idle-Keeps s kept) (fd_ready-Keeps fd what (cselect_flags_for_wait_events n) s kept)

  io_wait_one-Keeps : (fd what : ℕ) (tv : Timeval) → Steps (io_wait_one D self fuel fd what tv)
  io_wait_one-Keeps fd what tv (w, ctx) kept =
      and_with-Keeps D self P S ctx (D.io_wait fd (wait_events_for_curl_poll what) tv w)
        (after_io_wait D self fuel fd what)
        (S.io_waits fd (wait_events_for_curl_poll what) tv w kept) (after_io_wait-Keeps fd what)

  pub wait_one-Keeps : (fd what : ℕ) (tv : Timeval) → Steps (wait_one D self fuel fd what tv)
  unfolding wait_one
  wait_one-Keeps fd what tv s kept =
      if-Leaves (Held D self P S) (not (D.has_scheduler s.0))
        (wait_single_fd D self fuel fd what tv s) _ (wait_single_fd-Keeps fd what tv s kept)
        (if-Leaves (Held D self P S) (not (D.fd_valid fd s.0)) (settle_forgotten D self fuel fd s) _
          (settle_forgotten-Keeps D self P S fuel fd s kept)
          (and_io-Keeps (io_for_fd D self fuel fd what s) (io_wait_one D self fuel fd what tv)
            (wait_single_fd D self fuel fd what tv) (io_for_fd-Keeps D self P S fuel fd what s kept)
            (io_wait_one-Keeps fd what tv) (wait_single_fd-Keeps fd what tv)))

  io_wait_first-Keeps :
      (tracked fd what : ℕ) (tv : Timeval)
      → Steps (λ s. io_wait_first D self fuel tracked fd what s tv)
  io_wait_first-Keeps tracked fd what tv (w, ctx) kept =
      and_with-Keeps D self P S ctx (D.io_wait fd (wait_events_for_curl_poll what) tv w)
        (λ r. select_all D self fuel tracked no_time)
        (S.io_waits fd (wait_events_for_curl_poll what) tv w kept)
        (λ r. select-Keeps tracked no_time)

  pub wait_first-Keeps :
      (tracked fd what : ℕ) (tv : Timeval) → Steps (wait_first D self fuel tracked fd what tv)
  unfolding wait_first
  wait_first-Keeps tracked fd what tv s kept =
      if-Leaves (Held D self P S) (not (D.has_scheduler s.0)) (select_all D self fuel tracked tv s)
        _ (select-Keeps tracked tv s kept)
        (if-Leaves (Held D self P S) (not (D.fd_valid fd s.0)) (settle_forgotten D self fuel fd s) _
          (settle_forgotten-Keeps D self P S fuel fd s kept)
          (and_io-Keeps (io_for_fd D self fuel fd what s)
            (λ s. io_wait_first D self fuel tracked fd what s tv)
            (select_all D self fuel tracked tv) (io_for_fd-Keeps D self P S fuel fd what s kept)
            (io_wait_first-Keeps tracked fd what tv) (select-Keeps tracked tv)))

  and_built-Keeps :
      (r : Driving L × Result Bool) (next : Driving L → Built D self fuel)
      → P r.0.0
      → ((s : Driving L) → P s.0 → P (next s).0.0)
      → P (and_built D self fuel r next).0.0
  and_built-Keeps (s, ok true) next kept rest = rest s kept
  and_built-Keeps (s, ok false) next kept rest = kept
  and_built-Keeps (s, raise x) next kept rest = kept

  pub build_io_select_arrays-Keeps :
      (entries : List (ℕ × ℕ)) (arrays : IoArrays) (s : Driving L)
      → P s.0
      → P (build_io_select_arrays D self fuel entries arrays s).0.0
  unfolding build_io_select_arrays
  build_io_select_arrays-Keeps [] arrays s kept = kept
  build_io_select_arrays-Keeps ((fd, what) ∷ entries) arrays s kept =
      elim (Bool-cases (D.fd_valid fd s.0)) [
        | inr e ↦ rw (e, build_io_select_arrays) kept
        | inl e ↦
            rw (e, build_io_select_arrays)
              (and_built-Keeps (io_for_fd D self fuel fd what s)
                (build_io_select_arrays D self fuel entries (pushed fd what arrays))
                (io_for_fd-Keeps D self P S fuel fd what s kept)
                (build_io_select_arrays-Keeps entries (pushed fd what arrays)))
      ]

  settle_fds-Keeps : (fds : List (ℕ × ℕ)) → Steps (settle_fds D self fuel fds)
  settle_fds-Keeps [] s kept = idle-Keeps s kept
  settle_fds-Keeps (fd ∷ fds) s kept = settle_all-Keeps D self P S fuel (fd ∷ fds) s kept

  after_io_select-Keeps :
      (tracked fd what : ℕ) (tv : Timeval) (selected : IoSelect)
      → Steps (after_io_select D self fuel tracked fd what tv selected)
  after_io_select-Keeps tracked fd what tv unimplemented s kept =
      wait_first-Keeps tracked fd what tv s kept
  after_io_select-Keeps tracked fd what tv no_array s kept = idle-Keeps s kept
  after_io_select-Keeps tracked fd what tv (selected_ios r w e) s kept =
      settle_fds-Keeps
        (collect_ready
          (io_flags s.1.io_cache (array_or_empty r) (array_or_empty w) (array_or_empty e)) tracked
          s.1.sock_map)
        s kept

  pub io_select_built-Keeps :
      (tracked fd what : ℕ) (tv : Timeval) (built : Built D self fuel)
      → P built.0.0
      → Leaves (Held D self P S) (io_select_built D self fuel tracked fd what tv built)
  io_select_built-Keeps tracked fd what tv (s, raise x) kept = kept
  io_select_built-Keeps tracked fd what tv (s, ok none) kept =
      wait_first-Keeps tracked fd what tv s kept
  io_select_built-Keeps tracked fd what tv ((w, ctx), ok (some a)) kept =
      and_with-Keeps D self P S ctx (D.io_select a.readables a.writables a.exceptables tv w)
        (after_io_select D self fuel tracked fd what tv)
        (S.io_selects a.readables a.writables a.exceptables tv w kept)
        (after_io_select-Keeps tracked fd what tv)
