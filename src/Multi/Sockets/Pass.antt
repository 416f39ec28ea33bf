-- ===== src/Multi/Sockets/Pass.antt =====
-- One pass of the loop rb_curl_multi_socket_drive of ext/curb_multi.c: the deadline, the wait on no
-- socket, on one or on several, and what libcurl is told of it.
use curb.Base.{ℕ, ◌==◌, Bool, true, false, Option, none, some, List, [], ◌∷◌, if◌then◌else◌}
use curb.Base.Int.{ℤ}
use curb.Multi.{Libcurl, World}
use curb.Multi.Attach.{code_of, is_ok}
use curb.Multi.Loop.{running_set, read_info, yield_if_given}
use curb.Multi.Run.{Run, and_run, finished}
use curb.Multi.Sockets.{
  SocketCtx, cselect_flags_for_curl_poll, socket_forget_fd, multi_socket_timer_due,
}
use curb.Multi.Sockets.Wait.{
  all_called, Timeval, wait_ms, fdset_from_sockmap, ready_flags, collect_ready,
}
use curb.Multi.Sockets.Drive.{
  FdSelect, selected_fds, fds_interrupted, fds_failed, SocketDriver, Driving, Waited, timed_out,
  nothing_more, fd_ready, cached, cache_io,
}
use curb.Ruby.{runtime_error, multi_error, Result, ok, raise}

module _ {L : Libcurl} where
  -- ctx->timeout_deadline_ms = -1
  abbrev pub no_deadline : Driving L → Driving L
  no_deadline (w, ctx) = (w, record ctx { timeout_deadline_ms = none })

  module _ (D : SocketDriver L) (self : ℕ) where
    -- The calls that libcurl made to the callbacks.
    abbrev pub caught_up : Driving L → Driving L
    caught_up (w, ctx) = let h = D.heard w in (h.0, all_called h.1 ctx)

    abbrev pub in_context : SocketCtx → Run (World L) → Run (Driving L)
    in_context ctx none = none
    in_context ctx (some (w, r)) = some (caught_up (w, ctx), r)

    abbrev pub and_with {ℓ} :
        {A : Type ℓ}
        → SocketCtx
        → World L × Result A
        → (A → Driving L → Run (Driving L))
        → Run (Driving L)
    and_with ctx (w, ok a) next = next a (caught_up (w, ctx))
    and_with ctx (w, raise x) next = some (caught_up (w, ctx), raise x)

    -- curl_multi_socket_action, whose error is raised
    unfoldable pub act : Option ℕ → ℕ → Driving L → Run (Driving L)
    act fd flags (w, ctx) =
        let r = D.socket_action self fd flags w in
        let s = caught_up (running_set self r.2 r.0, ctx) in
        if is_ok r.1 then finished s else some (s, raise (multi_error (code_of r.1)))

    unfoldable pub act_all : List (ℕ × ℕ) → Driving L → Run (Driving L)
    act_all [] s = finished s
    act_all ((fd, flags) ∷ fds) s = and_run (act (some fd) flags s) (act_all fds)

    -- Messages are read and the block is called.
    unfoldable pub read_and_yield : ℕ → Driving L → Run (Driving L)
    read_and_yield fuel (w, ctx) =
        and_run (in_context ctx (read_info D.driver self fuel w))
          λ s. in_context s.1 (yield_if_given D.driver self s.0)

    -- multi_socket_timer_due; the clock is read only if there is a deadline.
    unfoldable pub timer_due : Driving L → Driving L × Bool
    timer_due (w, ctx) = elim ctx.timeout_deadline_ms [
      | none ↦ ((w, ctx), false)
      | some deadline ↦ (((D.clock w).0, ctx), multi_socket_timer_due (D.clock w).1 ctx)
    ]

    -- How long to wait
    unfoldable pub time_to_wait : Driving L → Driving L × ℤ
    time_to_wait (w, ctx) = elim ctx.timeout_deadline_ms [
      | none ↦ ((w, ctx), D.driver.default_timeout w)
      | some deadline ↦
          (((D.clock w).0, ctx), wait_ms (D.driver.default_timeout w) (D.clock w).1 deadline)
    ]

    module _ (fuel : ℕ) where
      -- The end of a pass
      unfoldable pub settle : Waited → Driving L → Run (Driving L)
      settle timed_out s = and_run (act none 0 (no_deadline s)) (read_and_yield fuel)
      settle nothing_more s = read_and_yield fuel s
      settle (fd_ready fd what flags) s =
          and_run (act (some fd) (if flags == 0 then cselect_flags_for_curl_poll what else flags) s)
            (read_and_yield fuel)

      -- Nothing was ready: did_timeout = multi_socket_timer_due(ctx)
      abbrev pub settle_idle : Driving L → Run (Driving L)
      settle_idle s = let d = timer_due s in settle (if d.1 then timed_out else nothing_more) d.0

      abbrev pub settle_all : List (ℕ × ℕ) → Driving L → Run (Driving L)
      settle_all fds s = and_run (act_all fds s) (settle nothing_more)

      abbrev pub settle_forgotten : ℕ → Driving L → Run (Driving L)
      settle_forgotten fd (w, ctx) = settle timed_out (w, socket_forget_fd ctx fd)

      -- `tracked` is the number of entries that the map had before the wait.
      abbrev pub after_select : ℕ → FdSelect → Driving L → Run (Driving L)
      after_select tracked fds_failed s = some (s, raise runtime_error)
      after_select tracked fds_interrupted s = finished s
      after_select tracked (selected_fds n r w e) s =
          if n == 0
          then settle_idle s
          else settle_all (collect_ready (ready_flags r w e) tracked s.1.sock_map) s

      unfoldable pub select_all : ℕ → Timeval → Driving L → Run (Driving L)
      select_all tracked tv (w, ctx) =
          let r = D.fd_select (fdset_from_sockmap ctx.sock_map) tv w in
          after_select tracked r.1 (caught_up (r.0, ctx))

      -- multi_socket_io_for_fd: a kept IO object, or a new one that is kept, or nil
      abbrev pub kept_io : ℕ → SocketCtx → World L × Result Bool → Driving L × Result Bool
      kept_io fd ctx (w, ok true) =
          ((w, record ctx { io_cache = cache_io ctx.io_cache fd }), ok true)
      kept_io fd ctx (w, ok false) = ((w, ctx), ok false)
      kept_io fd ctx (w, raise x) = ((w, ctx), raise x)

      unfoldable pub io_for_fd : (fd what : ℕ) → Driving L → Driving L × Result Bool
      io_for_fd fd what (w, ctx) =
          if cached ctx.io_cache fd
          then ((w, ctx), ok true)
          else kept_io fd ctx (D.for_fd fd what w)
