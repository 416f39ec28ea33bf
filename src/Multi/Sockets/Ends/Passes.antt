-- ===== src/Multi/Sockets/Ends/Passes.antt =====
-- That the loop over passes of ext/curb_multi.c ends, and the whole of
-- ruby_curl_multi_socket_perform_impl.
use curb.Base.{
  ℕ, ◌-◌, ◌<◌, ◌==◌, Bool, true, false, none, some, List, [], ◌∷◌, length, inl, inr, Bool-cases,
  arith,
}
use curb.Multi.{Libcurl, World}
use curb.Multi.Run.{and_run, Ends, and_run-Ends, if-Ends}
use curb.Multi.Sockets.Wait.{Timeval, timeval, collect_ready}
use curb.Multi.Sockets.Drive.{
  SocketDriver, Driving, timed_out, IoSelect, unimplemented, no_array, selected_ios, IoArrays,
  array_or_empty, io_flags, pushed,
}
use curb.Multi.Sockets.Pass.{no_deadline, act, read_and_yield, timer_due, time_to_wait, io_for_fd}
use curb.Multi.Sockets.Turn.{
  Built, and_built, build_io_select_arrays, settle_fds, after_io_select, io_select_built, wait_many,
  wait_first, wait_none, wait_on, switched, rearmed, running_of, pass,
}
use curb.Multi.Sockets.Ends.{
  SocketFinite, Within, within, caught_up-Within, and_with-Ends, act-Ends, read_and_yield-Ends,
}
use curb.Multi.Sockets.Ends.Waits.{
  settle-Ends, settle_idle-Ends, settle_all-Ends, timer_due-Within, time_to_wait-Within,
  io_for_fd-Within, wait_one-Ends, wait_first-Ends,
}
use curb.Ruby.{Result, ok, raise}

module _ {L : Libcurl} (D : SocketDriver L) (self : ℕ) (left : World L → ℕ)
    (F : SocketFinite D self left) (fuel : ℕ) where
  and_built-Within :
      (n : ℕ) (r : Driving L × Result Bool) (next : Driving L → Built D self fuel)
      → Within D self left n r.0
      → ((s : Driving L) → Within D self left n s → Within D self left n (next s).0)
      → Within D self left n (and_built D self fuel r next).0
  and_built-Within n (s, ok true) next h rest = rest s h
  and_built-Within n (s, ok false) next h rest = h
  and_built-Within n (s, raise x) next h rest = h

  build-Within :
      (entries : List (ℕ × ℕ)) (arrays : IoArrays) (n : ℕ) (s : Driving L)
      → Within D self left n s
      → Within D self left n (build_io_select_arrays D self fuel entries arrays s).0
  unfolding build_io_select_arrays
  build-Within [] arrays n s h = h
  build-Within ((fd, what) ∷ entries) arrays n s h = elim (Bool-cases (D.fd_valid fd s.0)) [
    | inr e ↦ rw (e, build_io_select_arrays) h
    | inl e ↦
        rw (e, build_io_select_arrays)
          (and_built-Within n (io_for_fd D self fuel fd what s) _
            (io_for_fd-Within D self left F fuel fd what n s h)
            (λ t k. build-Within entries (pushed fd what arrays) n t k))
  ]

  settle_fds-Ends :
      (fds : List (ℕ × ℕ)) (n : ℕ) (s : Driving L)
      → Within D self left n s
      → n < fuel
      → Ends (settle_fds D self fuel fds s) (Within D self left n)
  settle_fds-Ends [] n s h enough = settle_idle-Ends D self left F fuel n s h enough
  settle_fds-Ends (fd ∷ fds) n s h enough =
      settle_all-Ends D self left F fuel (fd ∷ fds) n s h enough

  after_io_select-Ends :
      (tracked fd what : ℕ) (tv : Timeval) (r : IoSelect) (n : ℕ) (s : Driving L)
      → Within D self left n s
      → n < fuel
      → Ends (after_io_select D self fuel tracked fd what tv r s) (Within D self left n)
  after_io_select-Ends tracked fd what tv unimplemented n s h enough =
      within D self left (wait_first D self fuel tracked fd what tv s)
        (wait_first-Ends D self left F fuel tracked fd what tv n s h enough) (omega arith)
  after_io_select-Ends tracked fd what tv no_array n s h enough =
      settle_idle-Ends D self left F fuel n s h enough
  after_io_select-Ends tracked fd what tv (selected_ios r w e) n s h enough =
      settle_fds-Ends
        (collect_ready
          (io_flags s.1.io_cache (array_or_empty r) (array_or_empty w) (array_or_empty e)) tracked
          s.1.sock_map)
        n s h enough

  io_select_built-Ends :
      (tracked fd what : ℕ) (tv : Timeval) (built : Built D self fuel) (n : ℕ)
      → Within D self left n built.0
      → n < fuel
      → Ends (io_select_built D self fuel tracked fd what tv built) (Within D self left (n - 1))
  io_select_built-Ends tracked fd what tv (s, raise x) n h enough = tt
  io_select_built-Ends tracked fd what tv (s, ok none) n h enough =
      wait_first-Ends D self left F fuel tracked fd what tv n s h enough
  io_select_built-Ends tracked fd what tv ((w, ctx), ok (some a)) n h enough =
      let k = F.io_selects a.readables a.writables a.exceptables tv w in
      and_with-Ends D self left F (n - 1) (n - 1) ctx
        (D.io_select a.readables a.writables a.exceptables tv w)
        (after_io_select D self fuel tracked fd what tv) (omega arith)
        (λ r t l. after_io_select-Ends tracked fd what tv r (n - 1) t l (omega arith))

  wait_many-Ends :
      (tracked fd what : ℕ) (tv : Timeval) (n : ℕ) (s : Driving L)
      → Within D self left n s
      → n < fuel
      → Ends (wait_many D self fuel tracked fd what tv s) (Within D self left (n - 1))
  unfolding wait_many
  wait_many-Ends tracked fd what tv n s h enough =
      let no_arrays : IoArrays = record { readables = []; writables = []; exceptables = [] } in
      if-Ends _ (D.has_scheduler s.0) _ _
        (io_select_built-Ends tracked fd what tv
          (build_io_select_arrays D self fuel s.1.sock_map no_arrays s) n
          (build-Within s.1.sock_map no_arrays n s h) enough)
        (wait_first-Ends D self left F fuel tracked fd what tv n s h enough)

  wait_none-Ends :
      (tv : Timeval) (n : ℕ) (s : Driving L)
      → Within D self left n s
      → n < fuel
      → Ends (wait_none D self fuel tv s) (Within D self left (n - 1))
  wait_none-Ends tv n (w, ctx) h enough =
      let k = F.sleeps tv w in
      and_with-Ends D self left F (n - 1) (n - 1) ctx (D.scheduler_sleep tv w) _ (omega arith)
        (λ u t l. settle-Ends D self left F fuel timed_out (n - 1) t l (omega arith))

  wait_on-Ends :
      (entries : List (ℕ × ℕ)) (tv : Timeval) (n : ℕ) (s : Driving L)
      → Within D self left n s
      → n < fuel
      → Ends (wait_on D self fuel entries tv s) (Within D self left (n - 1))
  unfolding wait_on
  wait_on-Ends [] tv n s h enough = wait_none-Ends tv n s h enough
  wait_on-Ends ((fd, what) ∷ []) tv n s h enough =
      wait_one-Ends D self left F fuel fd what tv n s h enough
  wait_on-Ends ((fd, what) ∷ entry ∷ entries) tv n s h enough =
      wait_many-Ends (length ((fd, what) ∷ entry ∷ entries)) fd what tv n s h enough

  switched-Within :
      (n : ℕ) (r : Driving L × Bool)
      → Within D self left n r.0
      → Within D self left n (switched D self fuel r)
  switched-Within n ((w, ctx), true) h =
      let k = F.tame.switches w in
      caught_up-Within D self left F n (D.driver.scheduler_yield w) ctx (omega arith)
  switched-Within n (s, false) h = h

  rearmed-Within :
      (n : ℕ) (s : Driving L)
      → Within D self left n s
      → Within D self left n (rearmed D self fuel s)
  rearmed-Within n s h = elim (Bool-cases (running_of D self fuel s == 0)) [
    | inl e ↦ rw e h
    | inr e ↦
        rw e (switched-Within n (timer_due D self s) (timer_due-Within D self left F fuel n s h))
  ]

  -- One pass of the loop takes from what is left.
  pub pass-Ends :
      (n : ℕ) (s : Driving L)
      → Within D self left n s
      → n < fuel
      → Ends (pass D self fuel s) (Within D self left (n - 1))
  unfolding pass
  pass-Ends n s h enough =
      let d = timer_due D self s in
      let k = timer_due-Within D self left F fuel n s h in
      let t = time_to_wait D self d.0 in
      if-Ends _ d.1 _ _
        (and_run-Ends _ _
          (and_run (act D self none 0 (no_deadline d.0)) (read_and_yield D self fuel)) _
          (and_run-Ends _ _ (act D self none 0 (no_deadline d.0)) _
            (act-Ends D self left F none 0 n (no_deadline d.0) k)
            (λ u l. read_and_yield-Ends D self left F fuel (n - 1) u l (omega arith)))
          (λ u l. rearmed-Within (n - 1) u l))
        (wait_on-Ends t.0.1.sock_map (timeval t.1) n t.0
          (time_to_wait-Within D self left F fuel n d.0 k) enough)
