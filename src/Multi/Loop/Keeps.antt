-- ===== src/Multi/Loop/Keeps.antt =====
-- What the loop ruby_curl_multi_perform_impl of ext/curb_multi.c keeps, whether it raises or not: what
-- each of its calls keeps, and what work on a multi keeps that leaves its table alone.
use curb.Base.{
  ℕ, zero, suc, ◌==◌, ◌≡◌, refl, Bool, true, false, not, Option, none, some, inl, inr, Bool-cases,
  Option-cases, arith, is_some,
}
use curb.Base.Int.{ℤ}
use curb.Multi.{Multi, call_multi_perform, mcode_ok, mcode_error, Mcode, Libcurl, World, set_multi}
use curb.Multi.Attach.{is_ok, ensure_handle, code_of}
use curb.Multi.Deferred.{
  stash_multi_exception_if_unset, raise_multi_deferred_exception_if_idle,
  clear_multi_deferred_exception_if_any, clear_multi_deferred_exception_source_id_if_any,
  stash-attached,
}
use curb.Multi.Loop.{
  Driver, Message, done, other_message, Select, ready, interrupted, failed, is_zero_ms, capped,
  thousands, running_set, find_easy_value_for_handle, complete_handle, stash_failure,
  handle_message, raise_if_idle, read_info, multi_run, yielded, yield_if_given, run_round, selected,
  wait_fds, waited, turn, while_running, drain, allow_close, autoclosed, autoclose_if_enabled,
  source_cleared, perform_impl,
}
use curb.Multi.Run.{and_run, finished, Leaves, and_run-Leaves, if-Leaves, case-Leaves}
use curb.Ruby.{Result, ok, raise, Value, multi_error}

raise_if_idle-attached :
    (m : Multi) → (raise_multi_deferred_exception_if_idle m).0.attached ≡ m.attached
unfolding raise_multi_deferred_exception_if_idle clear_multi_deferred_exception_if_any
raise_if_idle-attached m = ground arith

-- What a predicate must be kept by.
pub record Keeps {L : Libcurl} (D : Driver L) (self : ℕ) (P : World L → Type 0) : Type 0 where
  pub works :
      (w : World L) (m : Multi)
      → m.attached ≡ (w.multis self).attached
      → P w
      → P (set_multi w self m)
  pub completes :
      (handle : ℕ) (private_easy : Option ℕ) (result : ℕ) (w : World L)
      → P w
      → P (complete_handle D self handle private_easy result w).0
  pub performs : (w : World L) → P w → P (D.perform self w).0
  pub reads : (w : World L) → P w → P (D.info_read self w).0
  pub selects : (maxfd : ℕ) (ms : ℤ) (w : World L) → P w → P (D.select maxfd ms w).0
  pub sleeps : (w : World L) → P w → P (D.sleep w)
  pub switches : (w : World L) → P w → P (D.scheduler_yield w)
  pub yields :
      (block : World L → World L × Result Value) (w : World L)
      → D.block ≡ some block
      → P w
      → P (block w).0
  pub closes : (w : World L) → P w → P (D.autoclose w).0

module _ {L : Libcurl} (D : Driver L) (self : ℕ) (P : World L → Type 0) (K : Keeps D self P) where
  pub running_set-Keeps : (n : ℕ) (w : World L) → P w → P (running_set self n w)
  running_set-Keeps n w kept = K.works w (record (w.multis self) { running = n }) refl kept

  stash_failure-Keeps :
      (handle : ℕ) (private_easy : Option ℕ) (r : World L × Result (Unit {0}))
      → P r.0
      → P (stash_failure D self handle private_easy r)
  stash_failure-Keeps handle private_easy (w, ok u) kept = kept
  stash_failure-Keeps handle private_easy (w, raise x) kept =
      K.works w
        (stash_multi_exception_if_unset x (find_easy_value_for_handle self handle private_easy w)
          (w.multis self))
        (stash-attached x (find_easy_value_for_handle self handle private_easy w) (w.multis self))
        kept

  handle_message-Keeps :
      (message : Message) (w : World L) → P w → P (handle_message D self message w)
  unfolding handle_message
  handle_message-Keeps other_message w kept = kept
  handle_message-Keeps (done handle private_easy result) w kept =
      stash_failure-Keeps handle private_easy (complete_handle D self handle private_easy result w)
        (K.completes handle private_easy result w kept)

  raise_if_idle-Keeps : (w : World L) → P w → P (raise_if_idle D self w).0
  raise_if_idle-Keeps w kept =
      K.works w (raise_multi_deferred_exception_if_idle (w.multis self)).0
        (raise_if_idle-attached (w.multis self)) kept

  pub read_info-Keeps : (fuel : ℕ) (w : World L) → P w → Leaves P (read_info D self fuel w)
  unfolding read_info
  read_info-Keeps zero w kept = tt
  read_info-Keeps (suc fuel) w kept = elim (Option-cases (D.info_read self w).1) [
    | inl e ↦ rw (e, read_info) (raise_if_idle-Keeps (D.info_read self w).0 (K.reads w kept))
    | inr (message, e) ↦
        rw (e, read_info)
          (read_info-Keeps fuel (handle_message D self message (D.info_read self w).0)
            (handle_message-Keeps message (D.info_read self w).0 (K.reads w kept)))
  ]

  multi_run-Keeps : (fuel : ℕ) (w : World L) → P w → Leaves P (multi_run D self fuel w)
  unfolding multi_run
  multi_run-Keeps zero w kept = tt
  multi_run-Keeps (suc fuel) w kept =
      let r = D.perform self w in
      let kept' = running_set-Keeps r.2 r.0 (K.performs w kept) in
      (elim r.1
        as (λ (code : Mcode). Leaves P (elim code [
          | call_multi_perform ↦ multi_run D self fuel (running_set self r.2 r.0)
          | mcode_ok ↦ finished (running_set self r.2 r.0)
          | mcode_error n ↦ some (running_set self r.2 r.0, raise (multi_error (ℤ.pos n)))
        ])) [
          | call_multi_perform ↦ multi_run-Keeps fuel (running_set self r.2 r.0) kept'
          | mcode_ok ↦ kept'
          | mcode_error n ↦ kept'
        ])

  yielded-Keeps : (r : World L × Result Value) → P r.0 → Leaves P (yielded D self r)
  yielded-Keeps (w, ok v) kept = kept
  yielded-Keeps (w, raise x) kept = kept

  pub yield_if_given-Keeps : (w : World L) → P w → Leaves P (yield_if_given D self w)
  unfolding yield_if_given
  yield_if_given-Keeps w kept = elim (Option-cases D.block) [
    | inl e ↦ rw (e, yield_if_given) kept
    | inr (block, e) ↦ rw (e, yield_if_given) (yielded-Keeps (block w) (K.yields block w e kept))
  ]

  run_round-Keeps : (fuel : ℕ) (w : World L) → P w → Leaves P (run_round D self fuel w)
  unfolding run_round
  run_round-Keeps fuel w kept =
      and_run-Leaves P (multi_run D self fuel w)
        (λ w. and_run (read_info D self fuel w) (yield_if_given D self))
        (multi_run-Keeps fuel w kept)
        (λ w kept.
          and_run-Leaves P (read_info D self fuel w) (yield_if_given D self)
            (read_info-Keeps fuel w kept) yield_if_given-Keeps)

  selected-Keeps : (fuel : ℕ) (r : World L × Select) → P r.0 → Leaves P (selected D self fuel r)
  selected-Keeps fuel (w, ready n) kept = run_round-Keeps fuel w kept
  selected-Keeps fuel (w, interrupted) kept = run_round-Keeps fuel w kept
  selected-Keeps fuel (w, failed) kept = kept

  wait_fds-Keeps :
      (fuel : ℕ) (ms : ℤ) (w : World L) (maxfd : Option ℕ)
      → P w
      → Leaves P (wait_fds D self fuel ms w maxfd)
  wait_fds-Keeps fuel ms w none kept = run_round-Keeps fuel (D.sleep w) (K.sleeps w kept)
  wait_fds-Keeps fuel ms w (some maxfd) kept =
      selected-Keeps fuel (D.select maxfd (thousands ms) w) (K.selects maxfd (thousands ms) w kept)

  waited-Keeps : (fuel : ℕ) (ms : ℤ) (w : World L) → P w → Leaves P (waited D self fuel ms w)
  waited-Keeps fuel ms w kept =
      if-Leaves P (is_ok (D.fdset self w).0) (wait_fds D self fuel ms w (D.fdset self w).1)
        (some (w, raise (multi_error (code_of (D.fdset self w).0))))
        (wait_fds-Keeps fuel ms w (D.fdset self w).1 kept) kept

  turn-Keeps : (fuel : ℕ) (w : World L) → P w → Leaves P (turn D self fuel w)
  unfolding turn
  turn-Keeps fuel w kept =
      let ms = capped (D.timeout self w).1 (D.default_timeout w) in
      if-Leaves P (not (is_ok (D.timeout self w).0)) _ _ kept (
        if-Leaves P (is_zero_ms (D.timeout self w).1)
          (and_run (run_round D self fuel w) (λ w. finished (D.scheduler_yield w)))
          (waited D self fuel ms w)
          (and_run-Leaves P (run_round D self fuel w) (λ w. finished (D.scheduler_yield w))
            (run_round-Keeps fuel w kept) K.switches)
          (waited-Keeps fuel ms w kept))

  while_running-Keeps :
      (fuel rounds : ℕ) (w : World L) → P w → Leaves P (while_running D self fuel rounds w)
  unfolding while_running
  while_running-Keeps fuel zero w kept = tt
  while_running-Keeps fuel (suc rounds) w kept =
      case-Leaves P ((w.multis self).running == 0) (finished w)
        (and_run (turn D self fuel w) (while_running D self fuel rounds)) kept
        (and_run-Leaves P (turn D self fuel w) (while_running D self fuel rounds)
          (turn-Keeps fuel w kept) (while_running-Keeps fuel rounds))

  drain-Keeps : (fuel times : ℕ) (w : World L) → P w → Leaves P (drain D self fuel times w)
  unfolding drain
  drain-Keeps fuel zero w kept = tt
  drain-Keeps fuel (suc times) w kept =
      and_run-Leaves P (while_running D self fuel fuel w) _ (while_running-Keeps fuel fuel w kept)
        λ w kept.
          and_run-Leaves P (read_info D self fuel w) _ (read_info-Keeps fuel w kept) λ w kept.
            and_run-Leaves P (yield_if_given D self w) _ (yield_if_given-Keeps w kept) λ w kept.
              case-Leaves P ((w.multis self).running == 0) (finished w) (drain D self fuel times w)
                kept (drain-Keeps fuel times w kept)

  allow_close-Keeps : (flag : Bool) (w : World L) → P w → P (allow_close D self flag w)
  allow_close-Keeps flag w kept =
      K.works w (record (w.multis self) { allow_close_during_perform = flag }) refl kept

  autoclosed-Keeps : (r : World L × Result Value) → P r.0 → Leaves P (autoclosed D self r)
  autoclosed-Keeps (w, ok v) kept = allow_close-Keeps false w kept
  autoclosed-Keeps (w, raise x) kept = kept

  pub autoclose_if_enabled-Keeps : (w : World L) → P w → Leaves P (autoclose_if_enabled D self w)
  unfolding autoclose_if_enabled
  autoclose_if_enabled-Keeps w kept =
      if-Leaves P (D.autoclose_enabled w)
        (autoclosed D self (D.autoclose (allow_close D self true w))) (finished w)
        (autoclosed-Keeps (D.autoclose (allow_close D self true w))
          (K.closes (allow_close D self true w) (allow_close-Keeps true w kept)))
        kept

  pub source_cleared-Keeps : (w : World L) → P w → P (source_cleared D self w)
  unfolding clear_multi_deferred_exception_source_id_if_any
  source_cleared-Keeps w kept = elim (Bool-cases (is_some (w.multis self).deferred_exception)) [
    | inl e ↦ rw (e, source_cleared) kept
    | inr e ↦
        rw (e, source_cleared)
          (K.works w (record (w.multis self) { deferred_source = none }) refl kept)
  ]

  pub perform_impl-Keeps :
      (fuel : ℕ) (w : World L) → P (ensure_handle self w).0 → Leaves P (perform_impl D self fuel w)
  unfolding perform_impl
  perform_impl-Keeps fuel w kept = and_run-Leaves P (some (ensure_handle self w)) _ kept λ w kept.
      let w' = source_cleared D self w in
      and_run-Leaves P (run_round D self fuel w') _
        (run_round-Keeps fuel w' (source_cleared-Keeps w kept))
        λ w kept.
          and_run-Leaves P (drain D self fuel fuel w) (autoclose_if_enabled D self)
            (drain-Keeps fuel fuel w kept) autoclose_if_enabled-Keeps
