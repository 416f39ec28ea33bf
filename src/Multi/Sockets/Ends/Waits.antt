-- ===== src/Multi/Sockets/Ends/Waits.antt =====
-- That a pass of the socket-action loop of ext/curb_multi.c ends and takes from what is left.
use curb.Base.{
  ℕ, ◌-◌, ◌<◌, ◌==◌, Bool, true, false, not, none, some, List, if◌then◌else◌, Option-cases, arith,
}
use curb.Multi.{Libcurl, World}
use curb.Multi.Run.{Run, Ends, and_run-Ends, if-Ends}
use curb.Multi.Sockets.{
  socket_forget_fd, wait_events_for_curl_poll, cselect_flags_for_curl_poll,
  cselect_flags_for_wait_events,
}
use curb.Multi.Sockets.Wait.{Timeval, no_time, fdset_from_sockmap, ready_flags, collect_ready}
use curb.Multi.Sockets.Drive.{
  SocketDriver, Driving, Waited, timed_out, nothing_more, fd_ready, FdSelect, selected_fds,
  fds_interrupted, fds_failed, IoWait, no_event, events, some_event, SingleWait, single_events,
  single_interrupted, single_failed,
}
use curb.Multi.Sockets.Pass.{
  no_deadline, caught_up, act, act_all, timer_due, time_to_wait, settle, settle_idle, settle_all,
  settle_forgotten, after_select, select_all, io_for_fd,
}
use curb.Multi.Sockets.Turn.{
  and_io, after_single, wait_single_fd, after_io_wait, io_wait_one, wait_one, io_wait_first,
  wait_first,
}
use curb.Multi.Sockets.Ends.{
  SocketFinite, Within, caught_up-Within, and_with-Ends, act-Ends, act_all-Ends,
  read_and_yield-Ends,
}
use curb.Ruby.{Result, ok, raise}

module _ {L : Libcurl} (D : SocketDriver L) (self : ℕ) (left : World L → ℕ)
    (F : SocketFinite D self left) (fuel : ℕ) where
  pub settle-Ends :
      (waited : Waited) (n : ℕ) (s : Driving L)
      → Within D self left n s
      → n < fuel
      → Ends (settle D self fuel waited s) (Within D self left n)
  unfolding settle
  settle-Ends nothing_more n s h enough = read_and_yield-Ends D self left F fuel n s h enough
  settle-Ends timed_out n s h enough =
      and_run-Ends _ _ (act D self none 0 (no_deadline s)) _
        (act-Ends D self left F none 0 n (no_deadline s) h)
        (λ t k. read_and_yield-Ends D self left F fuel n t (omega arith) enough)
  settle-Ends (fd_ready fd what flags) n s h enough =
      let mask = if flags == 0 then cselect_flags_for_curl_poll what else flags in
      and_run-Ends _ _ (act D self (some fd) mask s) _ (act-Ends D self left F (some fd) mask n s h)
        (λ t k. read_and_yield-Ends D self left F fuel n t (omega arith) enough)

  pub timer_due-Within :
      (n : ℕ) (s : Driving L) → Within D self left n s → Within D self left n (timer_due D self s).0
  unfolding timer_due
  timer_due-Within n (w, ctx) h =
      let k = F.ticks w in ground (arith, Option-cases ctx.timeout_deadline_ms)

  pub time_to_wait-Within :
      (n : ℕ) (s : Driving L)
      → Within D self left n s
      → Within D self left n (time_to_wait D self s).0
  unfolding time_to_wait
  time_to_wait-Within n (w, ctx) h =
      let k = F.ticks w in ground (arith, Option-cases ctx.timeout_deadline_ms)

  pub settle_idle-Ends :
      (n : ℕ) (s : Driving L)
      → Within D self left n s
      → n < fuel
      → Ends (settle_idle D self fuel s) (Within D self left n)
  settle_idle-Ends n s h enough =
      let d = timer_due D self s in
      settle-Ends (if d.1 then timed_out else nothing_more) n d.0 (timer_due-Within n s h) enough

  pub settle_all-Ends :
      (fds : List (ℕ × ℕ)) (n : ℕ) (s : Driving L)
      → Within D self left n s
      → n < fuel
      → Ends (settle_all D self fuel fds s) (Within D self left n)
  settle_all-Ends fds n s h enough =
      and_run-Ends _ _ (act_all D self fds s) _ (act_all-Ends D self left F fds n s h)
        (λ t k. settle-Ends nothing_more n t k enough)

  after_select-Ends :
      (tracked : ℕ) (r : FdSelect) (n : ℕ) (s : Driving L)
      → Within D self left n s
      → n < fuel
      → Ends (after_select D self fuel tracked r s) (Within D self left n)
  after_select-Ends tracked fds_failed n s h enough = tt
  after_select-Ends tracked fds_interrupted n s h enough = h
  after_select-Ends tracked (selected_fds k r w e) n s h enough =
      if-Ends _ (k == 0) _ _ (settle_idle-Ends n s h enough)
        (settle_all-Ends (collect_ready (ready_flags r w e) tracked s.1.sock_map) n s h enough)

  select_all-Ends :
      (tracked : ℕ) (tv : Timeval) (n : ℕ) (s : Driving L)
      → Within D self left n s
      → n < fuel
      → Ends (select_all D self fuel tracked tv s) (Within D self left (n - 1))
  unfolding select_all
  select_all-Ends tracked tv n (w, ctx) h enough =
      let sets = fdset_from_sockmap ctx.sock_map in
      let r = D.fd_select sets tv w in
      let k = F.fd_selects sets tv w in
      after_select-Ends tracked r.1 (n - 1) (caught_up D self (r.0, ctx))
        (caught_up-Within D self left F (n - 1) r.0 ctx (omega arith)) (omega arith)

  pub io_for_fd-Within :
      (fd what n : ℕ) (s : Driving L)
      → Within D self left n s
      → Within D self left n (io_for_fd D self fuel fd what s).0
  unfolding io_for_fd
  io_for_fd-Within fd what n (w, ctx) h = let k = F.makes fd what w in ground arith

  and_io-Ends :
      (n m : ℕ) (r : Driving L × Result Bool) (given missing : Driving L → Run (Driving L))
      → Within D self left n r.0
      → ((s : Driving L) → Within D self left n s → Ends (given s) (Within D self left m))
      → ((s : Driving L) → Within D self left n s → Ends (missing s) (Within D self left m))
      → Ends (and_io D self fuel r given missing) (Within D self left m)
  and_io-Ends n m (s, ok true) given missing h there gone = there s h
  and_io-Ends n m (s, ok false) given missing h there gone = gone s h
  and_io-Ends n m (s, raise x) given missing h there gone = tt

  after_single-Ends :
      (fd what : ℕ) (r : SingleWait) (n : ℕ) (s : Driving L)
      → Within D self left n s
      → n < fuel
      → Ends (after_single D self fuel fd what r s) (Within D self left n)
  after_single-Ends fd what single_failed n s h enough = tt
  after_single-Ends fd what single_interrupted n s h enough = h
  after_single-Ends fd what (single_events k) n s h enough =
      if-Ends _ (k == 0) _ _ (settle_idle-Ends n s h enough)
        (settle-Ends (fd_ready fd what (cselect_flags_for_wait_events k)) n s h enough)

  wait_single_fd-Ends :
      (fd what : ℕ) (tv : Timeval) (n : ℕ) (s : Driving L)
      → Within D self left n s
      → n < fuel
      → Ends (wait_single_fd D self fuel fd what tv s) (Within D self left (n - 1))
  unfolding wait_single_fd
  wait_single_fd-Ends fd what tv n (w, ctx) h enough =
      let mask = wait_events_for_curl_poll what in
      let r = D.wait_single fd mask tv w in
      let k = F.single_waits fd mask tv w in
      after_single-Ends fd what r.1 (n - 1) (caught_up D self (r.0, ctx))
        (caught_up-Within D self left F (n - 1) r.0 ctx (omega arith)) (omega arith)

  after_io_wait-Ends :
      (fd what : ℕ) (r : IoWait) (n : ℕ) (s : Driving L)
      → Within D self left n s
      → n < fuel
      → Ends (after_io_wait D self fuel fd what r s) (Within D self left n)
  after_io_wait-Ends fd what no_event n s h enough = settle_idle-Ends n s h enough
  after_io_wait-Ends fd what some_event n s h enough =
      settle-Ends (fd_ready fd what (cselect_flags_for_curl_poll what)) n s h enough
  after_io_wait-Ends fd what (events k) n s h enough =
      if-Ends _ (cselect_flags_for_wait_events k == 0) _ _ (settle_idle-Ends n s h enough)
        (settle-Ends (fd_ready fd what (cselect_flags_for_wait_events k)) n s h enough)

  io_wait_one-Ends :
      (fd what : ℕ) (tv : Timeval) (n : ℕ) (s : Driving L)
      → Within D self left n s
      → n < fuel
      → Ends (io_wait_one D self fuel fd what tv s) (Within D self left (n - 1))
  io_wait_one-Ends fd what tv n (w, ctx) h enough =
      let mask = wait_events_for_curl_poll what in
      let k = F.io_waits fd mask tv w in
      and_with-Ends D self left F (n - 1) (n - 1) ctx (D.io_wait fd mask tv w)
        (after_io_wait D self fuel fd what) (omega arith)
        (λ r t l. after_io_wait-Ends fd what r (n - 1) t l (omega arith))

  forgotten-Ends :
      (fd n : ℕ) (s : Driving L)
      → Within D self left n s
      → n < fuel
      → Ends (settle_forgotten D self fuel fd s) (Within D self left (n - 1))
  unfolding settle
  forgotten-Ends fd n (w, ctx) h enough =
      let s = no_deadline (w, socket_forget_fd ctx fd) in
      and_run-Ends _ _ (act D self none 0 s) _ (act-Ends D self left F none 0 n s h)
        (λ t k. read_and_yield-Ends D self left F fuel (n - 1) t k (omega arith))

  pub wait_one-Ends :
      (fd what : ℕ) (tv : Timeval) (n : ℕ) (s : Driving L)
      → Within D self left n s
      → n < fuel
      → Ends (wait_one D self fuel fd what tv s) (Within D self left (n - 1))
  unfolding wait_one
  wait_one-Ends fd what tv n s h enough =
      if-Ends _ (not (D.has_scheduler s.0)) _ _ (wait_single_fd-Ends fd what tv n s h enough) (
        if-Ends _ (not (D.fd_valid fd s.0)) _ _ (forgotten-Ends fd n s h enough) (
          and_io-Ends n (n - 1) (io_for_fd D self fuel fd what s) _ _
            (io_for_fd-Within fd what n s h) (λ t k. io_wait_one-Ends fd what tv n t k enough)
            (λ t k. wait_single_fd-Ends fd what tv n t k enough)))

  io_wait_first-Ends :
      (tracked fd what : ℕ) (tv : Timeval) (n : ℕ) (s : Driving L)
      → Within D self left n s
      → n < fuel
      → Ends (io_wait_first D self fuel tracked fd what s tv) (Within D self left (n - 1))
  io_wait_first-Ends tracked fd what tv n (w, ctx) h enough =
      let mask = wait_events_for_curl_poll what in
      let k = F.io_waits fd mask tv w in
      and_with-Ends D self left F n (n - 1) ctx (D.io_wait fd mask tv w) _ (omega arith)
        (λ r t l. select_all-Ends tracked no_time n t l enough)

  pub wait_first-Ends :
      (tracked fd what : ℕ) (tv : Timeval) (n : ℕ) (s : Driving L)
      → Within D self left n s
      → n < fuel
      → Ends (wait_first D self fuel tracked fd what tv s) (Within D self left (n - 1))
  unfolding wait_first
  wait_first-Ends tracked fd what tv n s h enough =
      if-Ends _ (not (D.has_scheduler s.0)) _ _ (select_all-Ends tracked tv n s h enough) (
        if-Ends _ (not (D.fd_valid fd s.0)) _ _ (forgotten-Ends fd n s h enough) (
          and_io-Ends n (n - 1) (io_for_fd D self fuel fd what s) _ _
            (io_for_fd-Within fd what n s h)
            (λ t k. io_wait_first-Ends tracked fd what tv n t k enough)
            (λ t k. select_all-Ends tracked tv n t k enough)))
