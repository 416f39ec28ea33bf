-- ===== src/Multi/Loop.antt =====
-- Running the transfers of a multi: the loop ruby_curl_multi_perform_impl of ext/curb_multi.c with
-- what it calls, as built with rb_thread_fd_select and curl_multi_timeout and not on Windows. Each
-- loop takes fuel, and gives `none` where that is used up.
pub mod Ends
pub mod Drain
pub mod Keeps
use curb.Base.{
  ℕ, ◌+◌, zero, suc, ◌==◌, ltb, leb, ◌*◌, Bool, true, false, ◌||◌, not, Option, none, some, List,
  [], ◌∷◌, if◌then◌else◌, is_some,
}
use curb.Base.Int.{ℤ, pos, negsuc}
use curb.Multi.{
  Multi, Mcode, call_multi_perform, mcode_ok, mcode_error, Libcurl, World, set_multi, set_lib,
  keys_of,
}
use curb.Multi.Attach.{ensure_handle, code_of, is_ok}
use curb.Multi.Complete.{Info, handle_complete}
use curb.Multi.Run.{Run, and_run, finished}
use curb.Multi.Deferred.{
  stash_multi_exception_if_unset, raise_multi_deferred_exception_if_idle,
  clear_multi_deferred_exception_source_id_if_any,
}
use curb.Ruby.{Exn, runtime_error, multi_error, Result, ok, raise, Value}

-- A CURLMsg: CURLMSG_DONE with its handle, the easy of CURLINFO_PRIVATE if there is one, and the
-- result; or another.
pub data Message : Type 0 where
  done : (handle : ℕ) → (private_easy : Option ℕ) → (result : ℕ) → Message
  other_message : Message

-- What rb_thread_fd_select gives: how many are ready, or -1 with errno, EINTR or another.
pub data Select : Type 0 where
  ready : ℕ → Select
  interrupted : Select
  failed : Select

-- What the loop calls: libcurl, whose transfers run the procs of their easies; the system; the procs
-- of a finished transfer, what they are told, and the block; the Ruby method _autoclose; and the
-- settings default_timeout (milliseconds) and autoclose.
pub record Driver (L : Libcurl) : Type 0 where
  pub perform : ℕ → World L → World L × Mcode × ℕ
  pub timeout : ℕ → World L → Mcode × ℤ
  pub fdset : ℕ → World L → Mcode × Option ℕ
  pub info_read : ℕ → World L → World L × Option Message
  pub select : ℕ → ℤ → World L → World L × Select
  pub sleep : World L → World L
  pub scheduler_yield : World L → World L
  pub call : ℕ → ℕ → World L → World L × Result Value
  pub info : World L → Info
  pub block : Option (World L → World L × Result Value)
  pub autoclose : World L → World L × Result Value
  pub default_timeout : World L → ℤ
  pub autoclose_enabled : World L → Bool

abbrev pub is_zero_ms : ℤ → Bool
is_zero_ms (pos n) = n == 0
is_zero_ms (negsuc n) = false

-- The timeout that libcurl gives, unless it is negative or above the default.
abbrev pub capped : ℤ → ℤ → ℤ
capped (negsuc n) default = default
capped (pos n) (pos default) = if ltb default n then pos default else pos n
capped (pos n) (negsuc d) = negsuc d

-- tv.tv_usec; the int it is kept in is not bounded here.
abbrev pub thousands : ℤ → ℤ
thousands (pos n) = pos (n * 1_000)
thousands (negsuc n) = negsuc (n * 1_000 + 999)

module _ {L : Libcurl} where
  abbrev pub running_set : ℕ → ℕ → World L → World L
  running_set self n w = set_multi w self (record (w.multis self) { running = n })

  unfoldable pub find_easy_by_handle : ℕ → List ℕ → World L → Option ℕ
  find_easy_by_handle handle [] w = none
  find_easy_by_handle handle (k ∷ ks) w =
      let rest = find_easy_by_handle handle ks w in
      elim (w.easies k).curl [ none ↦ rest | some curl ↦ if curl == handle then some k else rest ]

  abbrev pub self_of : Option ℕ → World L → Option ℕ
  self_of none w = none
  self_of (some easy) w = (w.easies easy).self

  unfoldable pub find_easy_value_for_handle : ℕ → ℕ → Option ℕ → World L → Option ℕ
  find_easy_value_for_handle self handle private_easy w = elim (self_of private_easy w) [
    | some easy ↦ some easy
    | none ↦ find_easy_by_handle handle (keys_of (w.multis self).attached) w
  ]

  module _ (D : Driver L) (self : ℕ) where
    -- A handle whose easy is not found is only taken off.
    unfoldable pub complete_handle : ℕ → Option ℕ → ℕ → World L → World L × Result (Unit {0})
    complete_handle handle private_easy result w =
        elim (find_easy_value_for_handle self handle private_easy w) [
          | some easy ↦ handle_complete D.call D.info self easy result w
          | none ↦ (
            if is_some (w.multis self).handle
                then set_lib w (L.remove_handle w.lib (w.multis self).handle (some handle)).0
                else w,
            ok tt,
          )
        ]

    abbrev pub stash_failure : ℕ → Option ℕ → World L × Result (Unit {0}) → World L
    stash_failure handle private_easy (w, ok u) = w
    stash_failure handle private_easy (w, raise x) = set_multi w self (
        stash_multi_exception_if_unset x (find_easy_value_for_handle self handle private_easy w)
          (w.multis self))

    -- A message is handled; an exception on the way is only stashed.
    unfoldable pub handle_message : Message → World L → World L
    handle_message other_message w = w
    handle_message (done handle private_easy result) w =
        stash_failure handle private_easy (complete_handle handle private_easy result w)

    abbrev pub raise_if_idle : World L → World L × Result (Unit {0})
    raise_if_idle w =
        let r = raise_multi_deferred_exception_if_idle (w.multis self) in
        (set_multi w self r.0, r.1)

    -- rb_curl_multi_read_info
    unfoldable pub read_info : ℕ → World L → Run (World L)
    read_info zero w = none
    read_info (suc fuel) w = elim (D.info_read self w).1 [
      | none ↦ some (raise_if_idle (D.info_read self w).0)
      | some message ↦ read_info fuel (handle_message message (D.info_read self w).0)
    ]

    -- rb_curl_multi_run
    unfoldable pub multi_run : ℕ → World L → Run (World L)
    multi_run zero w = none
    multi_run (suc fuel) w =
        let r = D.perform self w in
        elim r.1 [
          | call_multi_perform ↦ multi_run fuel (running_set self r.2 r.0)
          | mcode_ok ↦ finished (running_set self r.2 r.0)
          | mcode_error n ↦ some (running_set self r.2 r.0, raise (multi_error (pos n)))
        ]

    abbrev pub yielded : World L × Result Value → Run (World L)
    yielded (w, ok v) = finished w
    yielded (w, raise x) = some (w, raise x)

    unfoldable pub yield_if_given : World L → Run (World L)
    yield_if_given w = elim D.block [ none ↦ finished w | some block ↦ yielded (block w) ]

    -- The three calls that every round ends with.
    unfoldable pub run_round : ℕ → World L → Run (World L)
    run_round fuel w = and_run (multi_run fuel w) λ w. and_run (read_info fuel w) yield_if_given

    abbrev pub selected : ℕ → World L × Select → Run (World L)
    selected fuel (w, ready n) = run_round fuel w
    selected fuel (w, interrupted) = run_round fuel w
    selected fuel (w, failed) = some (w, raise runtime_error)

    abbrev pub wait_fds : ℕ → ℤ → World L → Option ℕ → Run (World L)
    wait_fds fuel ms w none = run_round fuel (D.sleep w)
    wait_fds fuel ms w (some maxfd) = selected fuel (D.select maxfd (thousands ms) w)

    abbrev pub waited : ℕ → ℤ → World L → Run (World L)
    waited fuel ms w =
        if is_ok (D.fdset self w).0
        then wait_fds fuel ms w (D.fdset self w).1
        else some (w, raise (multi_error (code_of (D.fdset self w).0)))

    -- The body of the inner loop.
    unfoldable pub turn : ℕ → World L → Run (World L)
    turn fuel w =
        if not (is_ok (D.timeout self w).0)
        then some (w, raise (multi_error (code_of (D.timeout self w).0)))
        else if is_zero_ms (D.timeout self w).1
        then and_run (run_round fuel w) (λ w. finished (D.scheduler_yield w))
        else waited fuel (capped (D.timeout self w).1 (D.default_timeout w)) w

    -- while (rbcm->running)
    unfoldable pub while_running : ℕ → ℕ → World L → Run (World L)
    while_running fuel zero w = none
    while_running fuel (suc rounds) w = elim ((w.multis self).running == 0) [
      | true ↦ finished w
      | false ↦ and_run (turn fuel w) (while_running fuel rounds)
    ]

    -- do ... while (rbcm->running)
    unfoldable pub drain : ℕ → ℕ → World L → Run (World L)
    drain fuel zero w = none
    drain fuel (suc times) w = and_run (while_running fuel fuel w) λ w.
        and_run (read_info fuel w) λ w. and_run (yield_if_given w) λ w.
          elim ((w.multis self).running == 0) [ true ↦ finished w | false ↦ drain fuel times w ]

    abbrev pub allow_close : Bool → World L → World L
    allow_close flag w =
        set_multi w self (record (w.multis self) { allow_close_during_perform = flag })

    abbrev pub autoclosed : World L × Result Value → Run (World L)
    autoclosed (w, ok v) = finished (allow_close false w)
    autoclosed (w, raise x) = some (w, raise x)

    unfoldable pub autoclose_if_enabled : World L → Run (World L)
    autoclose_if_enabled w =
        if D.autoclose_enabled w then autoclosed (D.autoclose (allow_close true w)) else finished w

    abbrev pub source_cleared : World L → World L
    source_cleared w =
        if is_some (w.multis self).deferred_exception
        then w
        else set_multi w self (clear_multi_deferred_exception_source_id_if_any (w.multis self))

    -- ruby_curl_multi_perform_impl
    unfoldable pub perform_impl : ℕ → World L → Run (World L)
    perform_impl fuel w = and_run (some (ensure_handle self w)) λ w.
        and_run (run_round fuel (source_cleared w))
          λ w. and_run (drain fuel fuel w) autoclose_if_enabled
