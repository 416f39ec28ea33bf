-- ===== src/Examples/Sockets.antt =====
-- The theorems on the socket-action loop of a multi at concrete inputs (ext/curb_multi.c).
use curb.Base.{
  ◌-◌, ◌≤◌, ◌==◌, ◌≡◌, ◌⊎◌, refl, true, false, none, some, [], ◌∷◌, if◌then◌else◌, arith, Option,
  inl, inr, Bool-cases, subst,
}
use curb.Base.Int.{pos}
use curb.Examples.Loop.{told, driver, to_come, driver-Tame, driver-Finite}
use curb.Examples.State.{easygoing, two_held, world}
use curb.Multi.{World, mcode_ok, has_easy, set_multi, set_lib}
use curb.Multi.Attach.{ensure_handle}
use curb.Multi.Deferred.{clear_multi_deferred_exception_source_id_if_any}
use curb.Multi.Dispatch.{multi_perform, AtRest, Unmarked, multi_perform-Ends}
use curb.Multi.Linked.{Linked}
use curb.Multi.Linked.Ops.{work-Linked}
use curb.Multi.Linked.Perform.{Polite, LinkedWith, multi_perform-Linked}
use curb.Multi.Run.{Ends, Leaves, Gives}
use curb.Multi.Sockets.Wait.{socket_call, timer_call}
use curb.Multi.Sockets.Drive.{SocketDriver, selected_ios, selected_fds, some_event, single_events}
use curb.Multi.Sockets.Perform.{installed, no_hooks, socket_perform_impl}
use curb.Multi.Sockets.Ends.{SocketFinite}
use curb.Multi.Sockets.Unhooked.{Unhooked, driven, socket_perform_impl-Unhooked}
use curb.Ruby.{runtime_error, Result, Value, ok, raise}

-- A wait takes from what is to come.
abbrev spent : World easygoing → World easygoing
spent w =
    if w.lib == 0
    then set_multi w 0 (record (w.multis 0) { running = (w.multis 0).running - 1 })
    else set_lib w (w.lib - 1)

-- libcurl always names two sockets and a timer, and a scheduler has all hooks.
abbrev socket_driver : SocketDriver easygoing
socket_driver = record {
  driver = driver;
  socket_action = λ m fd flags w. (set_lib w (told w), mcode_ok, (w.multis 0).running - 1);
  heard = λ w. (w, socket_call (pos 5) 1 ∷ socket_call (pos 6) 2 ∷ timer_call 4 (pos 9) ∷ []);
  clock = λ w. (w, 4);
  has_scheduler = λ w. true;
  fd_valid = λ fd w. true;
  for_fd = λ fd what w. (w, ok true);
  io_select = λ r w e tv v. (spent v, ok (selected_ios (some r) none none));
  io_wait = λ fd mask tv w. (spent w, ok some_event);
  fd_select = λ sets tv w. (spent w, selected_fds 1 (5 ∷ []) [] []);
  wait_single = λ fd mask tv w. (spent w, single_events 1);
  scheduler_sleep = λ tv w. (spent w, ok tt);
}

spent-to_come : (w : World easygoing) → to_come (spent w) ≤ to_come w - 1
spent-to_come w = ground arith

socket_driver-SocketFinite : SocketFinite socket_driver 0 to_come
socket_driver-SocketFinite = record {
  tame = driver-Tame;
  acts = λ fd flags w. ground arith;
  hears = λ w. omega arith;
  ticks = λ w. omega arith;
  makes = λ fd what w. omega arith;
  io_selects = λ r w e tv v. spent-to_come v;
  io_waits = λ fd mask tv w. spent-to_come w;
  fd_selects = λ sets tv w. spent-to_come w;
  single_waits = λ fd mask tv w. spent-to_come w;
  sleeps = λ tv w. spent-to_come w;
}

multi_perform-Ends_example :
    (((world.multis 0).perform_active ≡ true)
      × (multi_perform socket_driver 0 20 (world, no_hooks)
          ≡ some ((world, no_hooks), raise runtime_error)))
    ⊎ (((world.multis 0).perform_active ≡ false)
        × Ends (multi_perform socket_driver 0 20 (world, no_hooks)) (AtRest socket_driver 0)
        × Leaves (Unmarked socket_driver 0) (multi_perform socket_driver 0 20 (world, no_hooks)))
unfolding ensure_handle clear_multi_deferred_exception_source_id_if_any
multi_perform-Ends_example =
    multi_perform-Ends socket_driver 0 to_come driver-Finite socket_driver-SocketFinite 20 world
      no_hooks (omega arith)

driver-kept : (w : World easygoing) → Linked w → Linked (driver.info_read 0 w).0
driver-kept w linked = elim (Bool-cases (w.lib == 0)) [ inl e ↦ rw e linked | inr e ↦ rw e linked ]

spent-Linked : (w : World easygoing) → Linked w → Linked (spent w)
spent-Linked w linked = elim (Bool-cases (w.lib == 0)) [
  | inl e ↦
      rw (e, spent)
        (work-Linked w 0 (record (w.multis 0) { running = (w.multis 0).running - 1 }) linked refl)
  | inr e ↦ rw (e, spent) linked
]

socket_driver-Polite : Polite socket_driver 0
socket_driver-Polite = record {
  calls = λ proc easy w linked. linked;
  performs = λ w linked. linked;
  reads = driver-kept;
  selects = λ maxfd us w linked. linked;
  sleeps = λ w linked. linked;
  switches = λ w linked. linked;
  yields = λ block w e linked.
      subst
        (λ (b : Option (World easygoing → World easygoing × Result Value)).
          Linked (elim b [ none ↦ w | some f ↦ (f w).0 ]))
        e linked;
  closes = λ w linked. work-Linked w 0 (record (w.multis 0) { running = 0 }) linked refl;
  acts = λ fd flags w linked. linked;
  hears = λ w linked. linked;
  ticks = λ w linked. linked;
  makes = λ fd what w linked. linked;
  io_selects = λ r w e tv v. spent-Linked v;
  io_waits = λ fd mask tv w. spent-Linked w;
  fd_selects = λ sets tv w. spent-Linked w;
  single_waits = λ fd mask tv w. spent-Linked w;
  scheduler_sleeps = λ tv w. spent-Linked w;
}

-- One multi holds the easies 3 and 4, which point to it.
abbrev one_table : World easygoing
one_table = record world {
  multis = λ i. if i == 0 then two_held else record two_held { attached = none };
}

one_table-Linked : Linked one_table
unfolding has_easy
one_table-Linked = (
  λ m k h. elim (Bool-cases (m == 0)) [ inl e ↦ ground arith | inr e ↦ ground arith ],
  λ m. elim (Bool-cases (m == 0)) [ inl e ↦ rw e (refl, (refl, tt)) | inr e ↦ rw e tt ],
)

multi_perform-Linked_example :
    Gives (LinkedWith socket_driver 0) (multi_perform socket_driver 0 20 (one_table, no_hooks))
unfolding ensure_handle clear_multi_deferred_exception_source_id_if_any
multi_perform-Linked_example =
    multi_perform-Linked socket_driver 0 socket_driver-Polite to_come driver-Finite
      socket_driver-SocketFinite 20 one_table no_hooks (omega arith) one_table-Linked

socket_perform_impl-Unhooked_example :
    Leaves
      (Unhooked socket_driver 0 (driven socket_driver 0 20 world))
      (socket_perform_impl socket_driver 0 20 (world, installed))
unfolding ensure_handle
socket_perform_impl-Unhooked_example =
    socket_perform_impl-Unhooked socket_driver 0 20 world installed refl
