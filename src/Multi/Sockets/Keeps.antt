-- ===== src/Multi/Sockets/Keeps.antt =====
-- What a pass of the socket-action loop of ext/curb_multi.c keeps, whether it raises or not: what each
-- of its calls keeps, and what work on a multi keeps that leaves its table alone.
pub mod Waits
pub mod Loop
use curb.Base.{
  ℕ, ◌==◌, ◌≡◌, refl, Bool, true, false, Option, none, some, List, [], ◌∷◌, if◌then◌else◌, inl, inr,
  Bool-cases, Option-cases,
}
use curb.Multi.{Multi, Libcurl, World, set_multi}
use curb.Multi.Attach.{is_ok, code_of}
use curb.Multi.Loop.{running_set, read_info, yield_if_given}
use curb.Multi.Loop.Keeps.{Keeps, running_set-Keeps, read_info-Keeps, yield_if_given-Keeps}
use curb.Multi.Run.{Run, and_run, finished, Leaves, and_run-Leaves, if-Leaves}
use curb.Multi.Sockets.{SocketCtx, cselect_flags_for_curl_poll, multi_socket_timer_due}
use curb.Multi.Sockets.Wait.{Timeval, FdSets, ready_flags, collect_ready, fdset_from_sockmap}
use curb.Multi.Sockets.Drive.{
  SocketDriver, Driving, Waited, timed_out, nothing_more, fd_ready, FdSelect, selected_fds,
  fds_interrupted, fds_failed, cached,
}
use curb.Multi.Sockets.Pass.{
  no_deadline, caught_up, in_context, and_with, act, act_all, read_and_yield, timer_due,
  time_to_wait, settle, settle_idle, settle_all, settle_forgotten, after_select, select_all,
  kept_io, io_for_fd,
}
use curb.Ruby.{Result, ok, raise, multi_error}

-- What a predicate must be kept by besides what the select loop calls.
pub record SocketKeeps {L : Libcurl} (D : SocketDriver L) (self : ℕ) (P : World L → Type 0)
    : Type 0 where
  pub driver : Keeps D.driver self P
  pub acts : (fd : Option ℕ) (flags : ℕ) (w : World L) → P w → P (D.socket_action self fd flags w).0
  pub hears : (w : World L) → P w → P (D.heard w).0
  pub ticks : (w : World L) → P w → P (D.clock w).0
  pub makes : (fd what : ℕ) (w : World L) → P w → P (D.for_fd fd what w).0
  pub io_selects :
      (r w e : List ℕ) (tv : Timeval) (v : World L) → P v → P (D.io_select r w e tv v).0
  pub io_waits : (fd mask : ℕ) (tv : Timeval) (w : World L) → P w → P (D.io_wait fd mask tv w).0
  pub fd_selects : (sets : FdSets) (tv : Timeval) (w : World L) → P w → P (D.fd_select sets tv w).0
  pub single_waits :
      (fd mask : ℕ) (tv : Timeval) (w : World L) → P w → P (D.wait_single fd mask tv w).0
  pub sleeps : (tv : Timeval) (w : World L) → P w → P (D.scheduler_sleep tv w).0

module _ {L : Libcurl} (D : SocketDriver L) (self : ℕ) (P : World L → Type 0)
    (S : SocketKeeps D self P) where
  abbrev pub Held : Driving L → Type 0
  Held s = P s.0

  in_context-Keeps :
      (ctx : SocketCtx) (run : Run (World L))
      → Leaves P run
      → Leaves Held (in_context D self ctx run)
  in_context-Keeps ctx none leaves = tt
  in_context-Keeps ctx (some (w, r)) leaves = S.hears w leaves

  pub and_with-Keeps {ℓ} :
      {A : Type ℓ}
      → (ctx : SocketCtx) (r : World L × Result A) (next : A → Driving L → Run (Driving L)) → P r.0
      → ((a : A) (s : Driving L) → P s.0 → Leaves Held (next a s))
      → Leaves Held (and_with D self ctx r next)
  and_with-Keeps ctx (w, ok a) next kept rest = rest a (caught_up D self (w, ctx)) (S.hears w kept)
  and_with-Keeps ctx (w, raise x) next kept rest = S.hears w kept

  pub act-Keeps :
      (fd : Option ℕ) (flags : ℕ) (s : Driving L) → P s.0 → Leaves Held (act D self fd flags s)
  unfolding act
  act-Keeps fd flags (w, ctx) kept =
      let r = D.socket_action self fd flags w in
      let kept' =
        S.hears (running_set self r.2 r.0)
          (running_set-Keeps D.driver self P S.driver r.2 r.0 (S.acts fd flags w kept)) in
      if-Leaves Held (is_ok r.1) _ _ kept' kept'

  act_all-Keeps : (fds : List (ℕ × ℕ)) (s : Driving L) → P s.0 → Leaves Held (act_all D self fds s)
  unfolding act_all
  act_all-Keeps [] s kept = kept
  act_all-Keeps ((fd, flags) ∷ fds) s kept =
      and_run-Leaves Held (act D self (some fd) flags s) (act_all D self fds)
        (act-Keeps (some fd) flags s kept) (act_all-Keeps fds)

  pub read_and_yield-Keeps :
      (fuel : ℕ) (s : Driving L) → P s.0 → Leaves Held (read_and_yield D self fuel s)
  unfolding read_and_yield
  read_and_yield-Keeps fuel (w, ctx) kept =
      and_run-Leaves Held (in_context D self ctx (read_info D.driver self fuel w))
        (λ s. in_context D self s.1 (yield_if_given D.driver self s.0))
        (in_context-Keeps ctx (read_info D.driver self fuel w)
          (read_info-Keeps D.driver self P S.driver fuel w kept))
        (λ s kept.
          in_context-Keeps s.1 (yield_if_given D.driver self s.0)
            (yield_if_given-Keeps D.driver self P S.driver s.0 kept))

  pub timer_due-Keeps : (s : Driving L) → P s.0 → P (timer_due D self s).0.0
  unfolding timer_due
  timer_due-Keeps (w, ctx) kept = elim (Option-cases ctx.timeout_deadline_ms) [
    | inl e ↦ rw (e, timer_due) kept
    | inr (deadline, e) ↦ rw (e, timer_due) (S.ticks w kept)
  ]

  pub time_to_wait-Keeps : (s : Driving L) → P s.0 → P (time_to_wait D self s).0.0
  unfolding time_to_wait
  time_to_wait-Keeps (w, ctx) kept = elim (Option-cases ctx.timeout_deadline_ms) [
    | inl e ↦ rw (e, time_to_wait) kept
    | inr (deadline, e) ↦ rw (e, time_to_wait) (S.ticks w kept)
  ]

  kept_io-Keeps :
      (fd : ℕ) (ctx : SocketCtx) (r : World L × Result Bool)
      → P r.0
      → P (kept_io D self 0 fd ctx r).0.0
  kept_io-Keeps fd ctx (w, ok true) kept = kept
  kept_io-Keeps fd ctx (w, ok false) kept = kept
  kept_io-Keeps fd ctx (w, raise x) kept = kept

  module _ (fuel : ℕ) where
    pub settle-Keeps :
        (waited : Waited) (s : Driving L) → P s.0 → Leaves Held (settle D self fuel waited s)
    unfolding settle
    settle-Keeps timed_out (w, ctx) kept =
        and_run-Leaves Held (act D self none 0 (no_deadline (w, ctx))) (read_and_yield D self fuel)
          (act-Keeps none 0 (no_deadline (w, ctx)) kept) (read_and_yield-Keeps fuel)
    settle-Keeps nothing_more s kept = read_and_yield-Keeps fuel s kept
    settle-Keeps (fd_ready fd what flags) s kept =
        let bits = if flags == 0 then cselect_flags_for_curl_poll what else flags in
        and_run-Leaves Held (act D self (some fd) bits s) (read_and_yield D self fuel)
          (act-Keeps (some fd) bits s kept) (read_and_yield-Keeps fuel)

    pub settle_idle-Keeps : (s : Driving L) → P s.0 → Leaves Held (settle_idle D self fuel s)
    settle_idle-Keeps s kept =
        let d = timer_due D self s in
        settle-Keeps (if d.1 then timed_out else nothing_more) d.0 (timer_due-Keeps s kept)

    pub settle_all-Keeps :
        (fds : List (ℕ × ℕ)) (s : Driving L) → P s.0 → Leaves Held (settle_all D self fuel fds s)
    settle_all-Keeps fds s kept =
        and_run-Leaves Held (act_all D self fds s) (settle D self fuel nothing_more)
          (act_all-Keeps fds s kept) (settle-Keeps nothing_more)

    pub settle_forgotten-Keeps :
        (fd : ℕ) (s : Driving L) → P s.0 → Leaves Held (settle_forgotten D self fuel fd s)
    settle_forgotten-Keeps fd (w, ctx) kept = settle-Keeps timed_out _ kept

    after_select-Keeps :
        (tracked : ℕ) (selected : FdSelect) (s : Driving L)
        → P s.0
        → Leaves Held (after_select D self fuel tracked selected s)
    after_select-Keeps tracked fds_failed s kept = kept
    after_select-Keeps tracked fds_interrupted s kept = kept
    after_select-Keeps tracked (selected_fds n r w e) s kept =
        if-Leaves Held (n == 0) (settle_idle D self fuel s) _ (settle_idle-Keeps s kept)
          (settle_all-Keeps (collect_ready (ready_flags r w e) tracked s.1.sock_map) s kept)

    pub select_all-Keeps :
        (tracked : ℕ) (tv : Timeval) (s : Driving L)
        → P s.0
        → Leaves Held (select_all D self fuel tracked tv s)
    unfolding select_all
    select_all-Keeps tracked tv (w, ctx) kept =
        let r = D.fd_select (fdset_from_sockmap ctx.sock_map) tv w in
        after_select-Keeps tracked r.1 (caught_up D self (r.0, ctx))
          (S.hears r.0 (S.fd_selects (fdset_from_sockmap ctx.sock_map) tv w kept))

    pub io_for_fd-Keeps :
        (fd what : ℕ) (s : Driving L) → P s.0 → P (io_for_fd D self fuel fd what s).0.0
    unfolding io_for_fd
    io_for_fd-Keeps fd what (w, ctx) kept = elim (Bool-cases (cached ctx.io_cache fd)) [
      | inl e ↦ rw (e, io_for_fd) kept
      | inr e ↦
          rw (e, io_for_fd) (kept_io-Keeps fd ctx (D.for_fd fd what w) (S.makes fd what w kept))
    ]
