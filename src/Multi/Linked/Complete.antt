-- ===== src/Multi/Linked/Complete.antt =====
-- A finished transfer in ext/curb_multi.c, with the procs it runs, and the two sides of an attachment.
use curb.Base.{
  ℕ, Bool, ◌≡◌, refl, true, false, ◌&&◌, Option, none, some, List, [], ◌∷◌, inl, inr, Bool-cases,
  Option-cases, arith,
}
use curb.Easy.Callbacks.{take_callback_error}
use curb.Multi.{Libcurl, World, set_easy, set_multi, set_lib, keys_of, has_easy}
use curb.Multi.Attach.{is_ok, multi_remove}
use curb.Multi.Complete.{
  Info, belongs_to, request_forgotten, remove_each, remove_added_easies_since_snapshot, and_then,
  set_active_flag, stash, after_proc, raise_after, run_proc, status_proc, run_procs, started,
  raise_own, run_completion_callbacks, taken_off, handle_complete, capture_attached_easy_snapshot,
}
use curb.Multi.Deferred.{stash_multi_exception_if_unset, stash-attached}
use curb.Multi.Linked.{Linked}
use curb.Multi.Linked.Close.{taken_off-Linked, finish-Linked}
use curb.Multi.Linked.Detach.{multi_remove-Linked}
use curb.Multi.Linked.Ops.{touch-Linked, work-Linked}
use curb.Ruby.{Exn, aborted_by_callback, Result, ok, raise, Value}

module _ {L : Libcurl} where
  stash-Linked :
      (self : ℕ) (x : Exn) (source : Option ℕ) (w : World L)
      → Linked w
      → Linked (set_multi w self (stash_multi_exception_if_unset x source (w.multis self)))
  stash-Linked self x source w linked =
      work-Linked w self _ linked (stash-attached x source (w.multis self))

  pub and_then-Linked :
      (r : World L × Result (Unit {0})) (next : World L → World L × Result (Unit {0}))
      → Linked r.0
      → ((w : World L) → Linked w → Linked (next w).0)
      → Linked (and_then r next).0
  and_then-Linked (w, ok u) next linked rest = rest w linked
  and_then-Linked (w, raise x) next linked rest = linked

  -- A remove of an easy that the table has: no other table has it.
  remove_attached-Linked :
      (self easy : ℕ) (w : World L)
      → has_easy (w.multis self) easy ≡ true
      → Linked w
      → Linked
          (multi_remove self easy (set_multi w self (request_forgotten (w.multis self) easy))).0
  remove_attached-Linked self easy w here linked =
      let w' = set_multi w self (request_forgotten (w.multis self) easy) in
      let linked' = work-Linked w self (request_forgotten (w.multis self) easy) linked refl in
      multi_remove-Linked self easy w' linked' (λ fine m there.
        let one = linked'.0 m easy there in let two = linked.0 self easy here in ground arith)

  remove_each-Linked :
      (self : ℕ) (easies : List ℕ) (w : World L) → Linked w → Linked (remove_each self easies w).0
  unfolding remove_each
  remove_each-Linked self [] w linked = linked
  remove_each-Linked self (easy ∷ easies) w linked =
      elim (Bool-cases (belongs_to (w.easies easy).multi self && has_easy (w.multis self) easy)) [
        | inr e ↦ rw (e, remove_each) (remove_each-Linked self easies w linked)
        | inl e ↦
            rw (e, remove_each)
              (and_then-Linked
                (multi_remove self easy (set_multi w self (request_forgotten (w.multis self) easy)))
                (remove_each self easies) (remove_attached-Linked self easy w (ground arith) linked)
                (remove_each-Linked self easies))
      ]

  set_active_flag-Linked :
      (easy : ℕ) (flag : Bool) (w : World L) → Linked w → Linked (set_active_flag easy flag w)
  set_active_flag-Linked easy flag w linked =
      touch-Linked w easy (record (w.easies easy) { callback_active = flag }) linked refl

  raise_after-Linked :
      (x : Exn) (r : World L × Result (Unit {0})) → Linked r.0 → Linked (raise_after x r).0
  raise_after-Linked x (w, ok u) linked = linked
  raise_after-Linked x (w, raise y) linked = linked

  after_proc-Linked :
      (self easy : ℕ) (snapshot : List (ℕ × ℕ)) (own : Option Exn) (r : World L × Result Value)
      → Linked r.0
      → Linked (after_proc self easy snapshot own r).0
  unfolding remove_added_easies_since_snapshot
  after_proc-Linked self easy snapshot (some x) (w, r) linked =
      set_active_flag-Linked easy false w linked
  after_proc-Linked self easy snapshot none (w, ok v) linked =
      set_active_flag-Linked easy false w linked
  after_proc-Linked self easy snapshot none (w, raise x) linked =
      let w' = set_active_flag easy false w in
      let w'' = stash self (aborted_by_callback x) easy w' in
      raise_after-Linked (aborted_by_callback x)
        (remove_added_easies_since_snapshot self snapshot w'')
        (remove_each-Linked self _ w'' (
          stash-Linked self (aborted_by_callback x) (some easy) w'
            (set_active_flag-Linked easy false w linked)))

  started-Linked : (self easy : ℕ) (w : World L) → Linked w → Linked (started self easy w)
  unfolding take_callback_error
  started-Linked self easy w linked =
      let w1 = set_multi w self (record (w.multis self) { callback_active = true }) in
      let w2 = set_easy w1 easy (take_callback_error (w.easies easy)).0 in
      let linked' =
        touch-Linked w1 easy (take_callback_error (w.easies easy)).0
          (work-Linked w self (record (w.multis self) { callback_active = true }) linked refl)
          refl in
      elim (Option-cases (w.easies easy).callback_error) [
        | inl e ↦ rw e linked'
        | inr (own, e) ↦ rw e (stash-Linked self own (some easy) w2 linked')
      ]

  module _ (call : ℕ → ℕ → World L → World L × Result Value)
      (keeps : (proc easy : ℕ) (w : World L) → Linked w → Linked (call proc easy w).0)
      (info : World L → Info) (self easy : ℕ) where
    run_proc-Linked :
        (snapshot : List (ℕ × ℕ)) (own : Option Exn) (proc : Option ℕ) (w : World L)
        → Linked w
        → Linked (run_proc call self easy snapshot own proc w).0
    run_proc-Linked snapshot own none w linked = linked
    run_proc-Linked snapshot own (some proc) w linked =
        after_proc-Linked self easy snapshot own (call proc easy (set_active_flag easy true w)) (
          keeps proc easy (set_active_flag easy true w) (set_active_flag-Linked easy true w linked))

    raise_own-Linked : (own : Option Exn) (w : World L) → Linked w → Linked (raise_own own w).0
    raise_own-Linked none w linked = linked
    raise_own-Linked (some own) w linked = linked

    run_procs-Linked :
        (result : ℕ) (snapshot : List (ℕ × ℕ)) (own : Option Exn) (w : World L)
        → Linked w
        → Linked (run_procs call info self easy result snapshot own w).0
    run_procs-Linked result snapshot own w linked =
        and_then-Linked (run_proc call self easy snapshot own (w.easies easy).opts.complete_proc w)
          (λ w'.
            and_then
              (run_proc call self easy snapshot own (status_proc (w'.easies easy) result (info w'))
                w')
              (raise_own own))
          (run_proc-Linked snapshot own (w.easies easy).opts.complete_proc w linked)
          (λ w' linked'.
            and_then-Linked
              (run_proc call self easy snapshot own (status_proc (w'.easies easy) result (info w'))
                w')
              (raise_own own)
              (run_proc-Linked snapshot own (status_proc (w'.easies easy) result (info w')) w'
                linked')
              (raise_own-Linked own))

    -- A finished transfer, whatever its procs do to the objects as long as they keep the two sides of
    -- the attachments together.
    pub handle_complete-Linked :
        (result : ℕ) (w : World L)
        → Linked w
        → Linked (handle_complete call info self easy result w).0
    unfolding handle_complete run_completion_callbacks
    handle_complete-Linked result w linked =
        let w1 = set_easy w easy (record (w.easies easy) { last_result = result }) in
        let linked1 =
          touch-Linked w easy (record (w.easies easy) { last_result = result }) linked refl in
        let r = L.remove_handle w1.lib (w1.multis self).handle (w1.easies easy).curl in
        let w2 = taken_off self easy (set_lib w1 r.0) in
        let snapshot = capture_attached_easy_snapshot (keys_of (w2.multis self).attached) w2 in
        let own = (w2.easies easy).callback_error in
        elim (Bool-cases (is_ok r.1)) [
          | inr bad ↦ rw (bad, handle_complete) linked1
          | inl fine ↦
              rw (fine, handle_complete)
                (finish-Linked self easy
                  (run_procs call info self easy result snapshot own (started self easy w2)).0
                  (run_procs-Linked result snapshot own (started self easy w2) (
                    started-Linked self easy w2
                      (taken_off-Linked self easy (set_lib w1 r.0) linked1))))
        ]
