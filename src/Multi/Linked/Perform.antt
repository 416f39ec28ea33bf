-- ===== src/Multi/Linked/Perform.antt =====
-- A perform of ext/curb_multi.c as a whole, and the two sides of an attachment.
use curb.Base.{
  ℕ, ◌≡◌, refl, sym, subst, ◌+◌, ◌<◌, true, Bool, Option, none, some, List, inl, inr, Bool-cases,
  Option-cases, is_some,
}
use curb.Base.Int.{ℤ}
use curb.Multi.{Libcurl, World}
use curb.Multi.Attach.{ensure_handle}
use curb.Multi.Dispatch.{chosen_impl, marked, guard_left, multi_perform, AtRest, multi_perform-Ends}
use curb.Multi.Linked.{Linked}
use curb.Multi.Linked.Complete.{handle_complete-Linked}
use curb.Multi.Linked.Ops.{work-Linked, ensure_handle-Linked}
use curb.Multi.Loop.{complete_handle, find_easy_value_for_handle, source_cleared, perform_impl}
use curb.Multi.Loop.Ends.{Finite}
use curb.Multi.Loop.Keeps.{Keeps, perform_impl-Keeps}
use curb.Multi.Perform.{perform_guard_ensure, idle}
use curb.Multi.Run.{Run, Leaves, if-Leaves, Gives, Ends-Gives}
use curb.Multi.Sockets.Drive.{SocketDriver}
use curb.Multi.Sockets.Wait.{Timeval, FdSets}
use curb.Multi.Sockets.Ends.{SocketFinite}
use curb.Multi.Sockets.Keeps.{SocketKeeps}
use curb.Multi.Sockets.Keeps.Loop.{with_hooks-Keeps, socket_perform_impl-Keeps}
use curb.Multi.Sockets.Perform.{Hooks, with_hooks, socket_perform_impl}
use curb.Ruby.{Result, Value}

-- The procs, the block, libcurl, the scheduler and the system do to the objects only what keeps the two
-- sides of the attachments together: they use the operations of the easies and the multis.
pub record Polite {L : Libcurl} (D : SocketDriver L) (self : ℕ) : Type 0 where
  pub calls : (proc easy : ℕ) (w : World L) → Linked w → Linked (D.driver.call proc easy w).0
  pub performs : (w : World L) → Linked w → Linked (D.driver.perform self w).0
  pub reads : (w : World L) → Linked w → Linked (D.driver.info_read self w).0
  pub selects :
      (maxfd : ℕ) (ms : ℤ) (w : World L) → Linked w → Linked (D.driver.select maxfd ms w).0
  pub sleeps : (w : World L) → Linked w → Linked (D.driver.sleep w)
  pub switches : (w : World L) → Linked w → Linked (D.driver.scheduler_yield w)
  pub yields :
      (block : World L → World L × Result Value) (w : World L)
      → D.driver.block ≡ some block
      → Linked w
      → Linked (block w).0
  pub closes : (w : World L) → Linked w → Linked (D.driver.autoclose w).0
  pub acts :
      (fd : Option ℕ) (flags : ℕ) (w : World L)
      → Linked w
      → Linked (D.socket_action self fd flags w).0
  pub hears : (w : World L) → Linked w → Linked (D.heard w).0
  pub ticks : (w : World L) → Linked w → Linked (D.clock w).0
  pub makes : (fd what : ℕ) (w : World L) → Linked w → Linked (D.for_fd fd what w).0
  pub io_selects :
      (r w e : List ℕ) (tv : Timeval) (v : World L) → Linked v → Linked (D.io_select r w e tv v).0
  pub io_waits :
      (fd mask : ℕ) (tv : Timeval) (w : World L) → Linked w → Linked (D.io_wait fd mask tv w).0
  pub fd_selects :
      (sets : FdSets) (tv : Timeval) (w : World L) → Linked w → Linked (D.fd_select sets tv w).0
  pub single_waits :
      (fd mask : ℕ) (tv : Timeval) (w : World L) → Linked w → Linked (D.wait_single fd mask tv w).0
  pub scheduler_sleeps : (tv : Timeval) (w : World L) → Linked w → Linked (D.scheduler_sleep tv w).0

module _ {L : Libcurl} (D : SocketDriver L) (self : ℕ) where
  abbrev pub LinkedWith : World L × Hooks → Type 0
  LinkedWith s = Linked s.0

  guard_left-Linked :
      (run : Run (World L × Hooks))
      → Leaves LinkedWith run
      → Leaves LinkedWith (guard_left D self run)
  unfolding perform_guard_ensure
  guard_left-Linked none linked = tt
  guard_left-Linked (some ((w, hooks), r)) linked =
      work-Linked w self (idle (w.multis self)) linked refl

  module _ (K : Polite D self) where
    complete_handle-Linked :
        (handle : ℕ) (private_easy : Option ℕ) (result : ℕ) (w : World L)
        → Linked w
        → Linked (complete_handle D.driver self handle private_easy result w).0
    unfolding complete_handle
    complete_handle-Linked handle private_easy result w linked =
        elim (Option-cases (find_easy_value_for_handle self handle private_easy w)) [
          | inr (easy, e) ↦
              rw (e, complete_handle)
                (handle_complete-Linked D.driver.call K.calls D.driver.info self easy result w
                  linked)
          | inl e ↦ elim (Bool-cases (is_some (w.multis self).handle)) [
            | inl t ↦ rw (e, t, complete_handle) linked
            | inr f ↦ rw (e, f, complete_handle) linked
          ]
        ]

    loop-Linked : Keeps D.driver self Linked
    loop-Linked = record {
      works = λ w m same linked. work-Linked w self m linked same;
      completes = complete_handle-Linked;
      performs = K.performs;
      reads = K.reads;
      selects = K.selects;
      sleeps = K.sleeps;
      switches = K.switches;
      yields = K.yields;
      closes = K.closes;
    }

    socket_loop-Linked : SocketKeeps D self Linked
    socket_loop-Linked = record {
      driver = loop-Linked;
      acts = K.acts;
      hears = K.hears;
      ticks = K.ticks;
      makes = K.makes;
      io_selects = K.io_selects;
      io_waits = K.io_waits;
      fd_selects = K.fd_selects;
      single_waits = K.single_waits;
      sleeps = K.scheduler_sleeps;
    }

    chosen-Linked :
        (has_scheduler : Bool) (fuel : ℕ) (w : World L) (hooks : Hooks)
        → Linked w
        → Leaves LinkedWith (chosen_impl D self has_scheduler fuel (w, hooks))
    unfolding chosen_impl
    chosen-Linked has_scheduler fuel w hooks linked =
        let ensured = ensure_handle-Linked self w linked in
        if-Leaves LinkedWith has_scheduler (socket_perform_impl D self fuel (w, hooks))
          (with_hooks D self hooks (perform_impl D.driver self fuel w))
          (socket_perform_impl-Keeps D self Linked socket_loop-Linked fuel w hooks ensured)
          (with_hooks-Keeps D self Linked socket_loop-Linked hooks
            (perform_impl D.driver self fuel w)
            (perform_impl-Keeps D.driver self Linked loop-Linked fuel w ensured))

    marked-Linked : (w : World L) → Linked w → Linked (marked D self w)
    marked-Linked w linked =
        work-Linked w self (record (w.multis self) { perform_active = true }) linked refl

    pub multi_perform-Leaves :
        (fuel : ℕ) (w : World L) (hooks : Hooks)
        → Linked w
        → Leaves LinkedWith (multi_perform D self fuel (w, hooks))
    unfolding multi_perform
    multi_perform-Leaves fuel w hooks linked = elim (Bool-cases (w.multis self).perform_active) [
      | inl busy ↦ rw (busy, multi_perform) linked
      | inr still ↦
          rw (still, multi_perform)
            (guard_left-Linked
              (chosen_impl D self (D.has_scheduler w) fuel (marked D self w, hooks))
              (chosen-Linked (D.has_scheduler w) fuel (marked D self w) hooks
                (marked-Linked w linked)))
    ]

    -- If the transfers need finitely many calls of libcurl and waits, the block and the procs add no
    -- work, the autoclose of the library (lib/curl/multi.rb), if it does not raise, leaves nothing
    -- running, and the procs, the block and the system keep it true that each easy in the table of a multi
    -- points back to that multi and that no table has an easy twice, then a perform comes to its end,
    -- with a fiber scheduler and without, and keeps it true too: whether it raised or not, and whatever
    -- transfers finished, raised and were taken off on the way. The fuel is two more than the calls and
    -- waits to come once the handle is there.
    pub multi_perform-Linked :
        (left : World L → ℕ)
        → Finite D.driver self left
        → SocketFinite D self left
        → (fuel : ℕ) (w : World L) (hooks : Hooks)
        → left (source_cleared D.driver self (ensure_handle self (marked D self w)).0) + 1 < fuel
        → Linked w
        → Gives LinkedWith (multi_perform D self fuel (w, hooks))
    multi_perform-Linked left G F fuel w hooks enough linked =
        elim (multi_perform-Ends D self left G F fuel w hooks enough) [
          | inl (busy, refused) ↦ subst (Gives LinkedWith) (sym refused) linked
          | inr (still, ends, unmarked) ↦
              Ends-Gives (AtRest D self) LinkedWith (multi_perform D self fuel (w, hooks)) ends
                (multi_perform-Leaves fuel w hooks linked)
        ]
