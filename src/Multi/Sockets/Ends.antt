-- ===== src/Multi/Sockets/Ends.antt =====
-- That the socket-action loop of ext/curb_multi.c ends, with no transfer running.
pub mod Waits
pub mod Passes
pub mod Loop
use curb.Base.{
  ℕ, zero, suc, ◌-◌, ◌+◌, ◌≤◌, ◌<◌, ◌==◌, Bool, true, false, not, Option, none, some, List, [], ◌∷◌,
  if◌then◌else◌, ◌≡◌, refl, inl, inr, Bool-cases, Option-cases, arith, ◌⊎◌, if-true, if-false,
}
use curb.Base.Int.{ℤ}
use curb.Multi.{Libcurl, World, Multi}
use curb.Multi.Attach.{is_ok}
use curb.Multi.Loop.{Driver, running_set, read_info, yield_if_given}
use curb.Multi.Loop.Ends.{Tame, read_info-Ends}
use curb.Multi.Run.{Run, and_run, finished, Ends, and_run-Ends, Ends-imp}
use curb.Multi.Sockets.{SocketCtx, socket_forget_fd}
use curb.Multi.Sockets.Wait.{Timeval, no_time, timeval, FdSets, fdset_from_sockmap}
use curb.Multi.Sockets.Drive.{
  SocketDriver, Driving, Waited, timed_out, nothing_more, fd_ready, FdSelect, selected_fds,
  fds_interrupted, fds_failed,
}
use curb.Multi.Sockets.Pass.{
  no_deadline, caught_up, in_context, and_with, act, act_all, read_and_yield, timer_due,
  time_to_wait, settle, settle_idle, settle_all, settle_forgotten, after_select, select_all,
  io_for_fd, kept_io,
}
use curb.Ruby.{Result, ok, raise}

module _ {L : Libcurl} (D : SocketDriver L) (self : ℕ) (left : World L → ℕ) where
  -- Transfers that need finitely many calls of libcurl and waits: `left` bounds those to come, and each
  -- takes from it. What libcurl says of sockets and timers, the clock and the making of an IO object
  -- add nothing.
  pub record SocketFinite : Type 0 where
    pub tame : Tame D.driver self left
    pub acts :
        (fd : Option ℕ) (flags : ℕ) (w : World L)
        → let r = D.socket_action self fd flags w in left (running_set self r.2 r.0) ≤ left w - 1
    pub hears : (w : World L) → left (D.heard w).0 ≤ left w
    pub ticks : (w : World L) → left (D.clock w).0 ≤ left w
    pub makes : (fd what : ℕ) (w : World L) → left (D.for_fd fd what w).0 ≤ left w
    pub io_selects :
        (r w e : List ℕ) (tv : Timeval) (v : World L) → left (D.io_select r w e tv v).0 ≤ left v - 1
    pub io_waits :
        (fd mask : ℕ) (tv : Timeval) (w : World L) → left (D.io_wait fd mask tv w).0 ≤ left w - 1
    pub fd_selects :
        (sets : FdSets) (tv : Timeval) (w : World L) → left (D.fd_select sets tv w).0 ≤ left w - 1
    pub single_waits :
        (fd mask : ℕ) (tv : Timeval) (w : World L)
        → left (D.wait_single fd mask tv w).0 ≤ left w - 1
    pub sleeps : (tv : Timeval) (w : World L) → left (D.scheduler_sleep tv w).0 ≤ left w - 1

  -- At most `n` is left.
  abbrev pub Within : ℕ → Driving L → Type 0
  Within n s = left s.0 ≤ n

  pub within : {n m : ℕ} (run : Run (Driving L)) → Ends run (Within n) → n ≤ m → Ends run (Within m)
  within {n} {m} run ends less = Ends-imp (Within n) (Within m) run ends (λ s h. omega arith)

  module _ (F : SocketFinite) where
    pub caught_up-Within :
        (n : ℕ) (w : World L) (ctx : SocketCtx) → left w ≤ n → Within n (caught_up D self (w, ctx))
    caught_up-Within n w ctx h = let k = F.hears w in omega arith

    in_context-Ends :
        (n : ℕ) (ctx : SocketCtx) (run : Run (World L))
        → Ends run (λ w. left w ≤ n)
        → Ends (in_context D self ctx run) (Within n)
    in_context-Ends n ctx none ends = ends
    in_context-Ends n ctx (some (w, ok u)) ends = caught_up-Within n w ctx ends
    in_context-Ends n ctx (some (w, raise x)) ends = tt

    pub and_with-Ends {ℓ} :
        {A : Type ℓ} (n m : ℕ) (ctx : SocketCtx) (r : World L × Result A)
        (next : A → Driving L → Run (Driving L))
        → left r.0 ≤ n
        → ((a : A) (s : Driving L) → Within n s → Ends (next a s) (Within m))
        → Ends (and_with D self ctx r next) (Within m)
    and_with-Ends n m ctx (w, ok a) next h rest =
        rest a (caught_up D self (w, ctx)) (caught_up-Within n w ctx h)
    and_with-Ends n m ctx (w, raise x) next h rest = tt

    pub act-Ends :
        (fd : Option ℕ) (flags n : ℕ) (s : Driving L)
        → Within n s
        → Ends (act D self fd flags s) (Within (n - 1))
    unfolding act
    act-Ends fd flags n (w, ctx) h =
        let r = D.socket_action self fd flags w in
        let k = F.acts fd flags w in
        elim (Bool-cases (is_ok r.1)) [
          | inl e ↦
              rw (e, act) (caught_up-Within (n - 1) (running_set self r.2 r.0) ctx (omega arith))
          | inr e ↦ rw (e, act) tt
        ]

    pub act_all-Ends :
        (fds : List (ℕ × ℕ)) (n : ℕ) (s : Driving L)
        → Within n s
        → Ends (act_all D self fds s) (Within n)
    unfolding act_all
    act_all-Ends [] n s h = h
    act_all-Ends ((fd, flags) ∷ fds) n s h =
        and_run-Ends (Within (n - 1)) (Within n) (act D self (some fd) flags s) _
          (act-Ends (some fd) flags n s h) (λ t k. act_all-Ends fds n t (omega arith))

    pub read_and_yield-Ends :
        (fuel n : ℕ) (s : Driving L)
        → Within n s
        → n < fuel
        → Ends (read_and_yield D self fuel s) (Within n)
    unfolding read_and_yield
    read_and_yield-Ends fuel n (w, ctx) h enough =
        and_run-Ends (Within n) (Within n) (in_context D self ctx (read_info D.driver self fuel w))
          _
          (in_context-Ends n ctx (read_info D.driver self fuel w) (
            Ends-imp _ _ (read_info D.driver self fuel w)
              (read_info-Ends D.driver self left F.tame fuel w (omega arith)) (λ u k. omega arith)))
          λ t k. in_context-Ends n t.1 (yield_if_given D.driver self t.0) (
            Ends-imp _ _ (yield_if_given D.driver self t.0) (F.tame.yields t.0)
              (λ u l. omega arith))
