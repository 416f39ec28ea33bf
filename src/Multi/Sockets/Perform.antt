-- ===== src/Multi/Sockets/Perform.antt =====
-- ruby_curl_multi_socket_perform_impl of ext/curb_multi.c: the loop over passes, with the callbacks
-- installed before it and taken off after it.
use curb.Base.{ℕ, zero, suc, ◌==◌, Bool, true, false, none, some, []}
use curb.Multi.{Libcurl, World}
use curb.Multi.Attach.{ensure_handle}
use curb.Multi.Loop.{source_cleared, autoclose_if_enabled}
use curb.Multi.Run.{Run, and_run, finished}
use curb.Multi.Sockets.{SocketCtx}
use curb.Multi.Sockets.Drive.{SocketDriver, Driving}
use curb.Multi.Sockets.Pass.{act, read_and_yield}
use curb.Multi.Sockets.Turn.{pass, running_of}
use curb.Ruby.{Result, ok, raise}

-- Whether the four options of libcurl's handle for the callbacks and their data are set; the data is
-- the context of the perform.
pub record Hooks : Type 0 where
  pub socket_function : Bool
  pub socket_context : Bool
  pub timer_function : Bool
  pub timer_context : Bool

abbrev pub installed : Hooks
installed = record {
  socket_function = true;
  socket_context = true;
  timer_function = true;
  timer_context = true;
}

abbrev pub no_hooks : Hooks
no_hooks = record {
  socket_function = false;
  socket_context = false;
  timer_function = false;
  timer_context = false;
}

abbrev pub new_context : SocketCtx
new_context = record { sock_map = []; timeout_deadline_ms = none; io_cache = some [] }

module _ {L : Libcurl} (D : SocketDriver L) (self : ℕ) where
  -- while (rbcm->running)
  unfoldable pub while_socket_running : ℕ → ℕ → Driving L → Run (Driving L)
  while_socket_running fuel zero s = none
  while_socket_running fuel (suc passes) s = elim (running_of D self fuel s == 0) [
    | true ↦ finished s
    | false ↦ and_run (pass D self fuel s) (while_socket_running fuel passes)
  ]

  -- do ... while (rbcm->running)
  unfoldable pub socket_drive : ℕ → ℕ → Driving L → Run (Driving L)
  socket_drive fuel zero s = none
  socket_drive fuel (suc times) s = and_run (act D self none 0 s) λ s.
      and_run (read_and_yield D self fuel s) λ s. and_run (while_socket_running fuel fuel s) λ s.
        and_run (read_and_yield D self fuel s) λ s. elim (running_of D self fuel s == 0) [
          | true ↦ finished s
          | false ↦ socket_drive fuel times s
        ]

  -- ruby_curl_multi_socket_drive_ensure
  unfoldable pub socket_drive_ensure : World L → Hooks → Hooks
  socket_drive_ensure w hooks = elim (w.multis self).handle [
    | none ↦ hooks
    | some handle ↦ no_hooks
  ]

  abbrev pub with_hooks : Hooks → Run (World L) → Run (World L × Hooks)
  with_hooks hooks none = none
  with_hooks hooks (some (w, r)) = some ((w, hooks), r)

  abbrev pub ensured : Run (Driving L) → Run (World L × Hooks)
  ensured none = none
  ensured (some ((w, ctx), r)) = some ((w, socket_drive_ensure w installed), r)

  abbrev pub with_handle : ℕ → Hooks → World L × Result (Unit {0}) → Run (World L × Hooks)
  with_handle fuel hooks (w, raise x) = some ((w, hooks), raise x)
  with_handle fuel hooks (w, ok u) =
      and_run (ensured (socket_drive fuel fuel (source_cleared D.driver self w, new_context)))
        λ s. with_hooks s.1 (autoclose_if_enabled D.driver self s.0)

  unfoldable pub socket_perform_impl : ℕ → World L × Hooks → Run (World L × Hooks)
  socket_perform_impl fuel (w, hooks) = with_handle fuel hooks (ensure_handle self w)
