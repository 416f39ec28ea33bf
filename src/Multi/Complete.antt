-- ===== src/Multi/Complete.antt =====
-- A finished transfer in ext/curb_multi.c: rb_curl_mutli_handle_complete and the callbacks it runs.
-- `call` is Ruby's proc.call with the easy (and, for three of the procs, the error of the result),
-- with all it may do to the objects.
use curb.Base.{
  ℕ, Bool, true, false, ◌&&◌, ◌||◌, not, Option, none, some, List, [], ◌∷◌, ◌==◌, ltb, leb,
  if◌then◌else◌, is_some,
}
use curb.Base.Int.{ℤ, pos, negsuc}
use curb.Easy.{Easy}
use curb.Easy.Lifecycle.{cleanup}
use curb.Easy.Callbacks.{take_callback_error}
use curb.Multi.{
  Multi, Libcurl, World, set_easy, set_multi, set_lib, delete_key, keys_of, has_easy, forget_easy,
}
use curb.Multi.Attach.{is_ok, code_of, detached_count, multi_remove}
use curb.Multi.Deferred.{stash_multi_exception_if_unset}
use curb.Ruby.{Exn, aborted_by_callback, multi_error, Result, ok, raise, Value}

-- The numbers that curl_easy_getinfo gives: the response code and the redirect count.
pub record Info : Type 0 where
  pub response_code : ℕ
  pub redirect_count : ℕ

abbrev pub between : ℕ → ℕ → ℕ → Bool
between low high n = leb low n && ltb n high

abbrev pub is_zero : ℤ → Bool
is_zero (pos n) = n == 0
is_zero (negsuc n) = false

abbrev pub no_redirects : Easy → Bool
no_redirects e = not e.follow_location && is_zero e.max_redirs

-- The status proc that the if-else chain runs, if any.
unfoldable pub status_proc : Easy → (result : ℕ) → Info → Option ℕ
status_proc e result info =
    if not (result == 0)
    then e.opts.failure_proc
    else if is_some e.opts.success_proc
        && (between 200 300 info.response_code || info.response_code == 0)
    then e.opts.success_proc
    else if is_some e.opts.redirect_proc
        && (between 300 400 info.response_code || ltb 0 info.redirect_count)
    then (if no_redirects e then none else e.opts.redirect_proc)
    else if is_some e.opts.missing_proc && between 400 500 info.response_code
    then e.opts.missing_proc
    else if is_some e.opts.failure_proc && between 500 1000 info.response_code
    then e.opts.failure_proc
    else none

abbrev pub request_forgotten : Multi → ℕ → Multi
request_forgotten m easy = record m { requests = delete_key m.requests easy }

abbrev pub in_snapshot : List (ℕ × ℕ) → ℕ → ℕ → Bool
in_snapshot [] key generation = false
in_snapshot ((k, g) ∷ snapshot) key generation =
    if k == key then g == generation else in_snapshot snapshot key generation

abbrev pub belongs_to : Option ℕ → ℕ → Bool
belongs_to none self = false
belongs_to (some m) self = m == self

module _ {L : Libcurl} where
  -- The easies that the table has and the snapshot has not, at their present generation.
  unfoldable pub capture_attached_easy_snapshot : List ℕ → World L → List (ℕ × ℕ)
  capture_attached_easy_snapshot [] w = []
  capture_attached_easy_snapshot (k ∷ ks) w =
      (k, (w.easies k).multi_attachment_generation) ∷ capture_attached_easy_snapshot ks w

  unfoldable pub collect_new_attached_easies : List (ℕ × ℕ) → List ℕ → World L → List ℕ
  collect_new_attached_easies snapshot [] w = []
  collect_new_attached_easies snapshot (k ∷ ks) w =
      if in_snapshot snapshot k (w.easies k).multi_attachment_generation
      then collect_new_attached_easies snapshot ks w
      else k ∷ collect_new_attached_easies snapshot ks w

  abbrev pub and_then :
      World L × Result (Unit {0})
      → (World L → World L × Result (Unit {0}))
      → World L × Result (Unit {0})
  and_then (w, ok u) next = next w
  and_then (w, raise x) next = (w, raise x)

  unfoldable pub remove_each : ℕ → List ℕ → World L → World L × Result (Unit {0})
  remove_each self [] w = (w, ok tt)
  remove_each self (easy ∷ easies) w =
      if belongs_to (w.easies easy).multi self && has_easy (w.multis self) easy
      then and_then
          (multi_remove self easy (set_multi w self (request_forgotten (w.multis self) easy)))
          (remove_each self easies)
      else remove_each self easies w

  unfoldable pub remove_added_easies_since_snapshot :
      ℕ → List (ℕ × ℕ) → World L → World L × Result (Unit {0})
  remove_added_easies_since_snapshot self snapshot w =
      remove_each self (collect_new_attached_easies snapshot (keys_of (w.multis self).attached) w) w

  abbrev pub set_active_flag : ℕ → Bool → World L → World L
  set_active_flag easy flag w = set_easy w easy (record (w.easies easy) { callback_active = flag })

  abbrev pub stash : ℕ → Exn → ℕ → World L → World L
  stash self x easy w =
      set_multi w self (stash_multi_exception_if_unset x (some easy) (w.multis self))

  abbrev pub raise_after : Exn → World L × Result (Unit {0}) → World L × Result (Unit {0})
  raise_after x (w, ok u) = (w, raise x)
  raise_after x (w, raise y) = (w, raise y)

  -- What comes of a status proc: an exception it raises is masked by one of the easy's own
  -- callbacks, and is otherwise kept, with the easies added since taken off again, and raised.
  abbrev pub after_proc :
      ℕ → ℕ → List (ℕ × ℕ) → Option Exn → World L × Result Value → World L × Result (Unit {0})
  after_proc self easy snapshot (some own) (w, r) = (set_active_flag easy false w, ok tt)
  after_proc self easy snapshot none (w, ok v) = (set_active_flag easy false w, ok tt)
  after_proc self easy snapshot none (w, raise x) = raise_after (aborted_by_callback x) (
      remove_added_easies_since_snapshot self snapshot
        (stash self (aborted_by_callback x) easy (set_active_flag easy false w)))

  -- A proc that is nil is not called.
  abbrev pub run_proc :
      (ℕ → ℕ → World L → World L × Result Value)
      → ℕ
      → ℕ
      → List (ℕ × ℕ)
      → Option Exn
      → Option ℕ
      → World L
      → World L × Result (Unit {0})
  run_proc call self easy snapshot own none w = (w, ok tt)
  run_proc call self easy snapshot own (some proc) w =
      after_proc self easy snapshot own (call proc easy (set_active_flag easy true w))

  abbrev pub raise_own : Option Exn → World L → World L × Result (Unit {0})
  raise_own none w = (w, ok tt)
  raise_own (some own) w = (w, raise own)

  abbrev pub stash_own : ℕ → ℕ → Option Exn → World L → World L
  stash_own self easy none w = w
  stash_own self easy (some own) w = stash self own easy w

  -- The easy's own exception is taken before the procs run.
  abbrev pub started : ℕ → ℕ → World L → World L
  started self easy w =
      let m = set_multi w self (record (w.multis self) { callback_active = true }) in
      stash_own self easy (w.easies easy).callback_error
        (set_easy m easy (take_callback_error (w.easies easy)).0)

  abbrev pub run_procs :
      (ℕ → ℕ → World L → World L × Result Value)
      → (World L → Info)
      → ℕ
      → ℕ
      → ℕ
      → List (ℕ × ℕ)
      → Option Exn
      → World L
      → World L × Result (Unit {0})
  run_procs call info self easy result snapshot own w =
      and_then (run_proc call self easy snapshot own (w.easies easy).opts.complete_proc w) λ w'.
        and_then
          (run_proc call self easy snapshot own (status_proc (w'.easies easy) result (info w')) w')
          (raise_own own)

  unfoldable pub run_completion_callbacks :
      (ℕ → ℕ → World L → World L × Result Value)
      → (World L → Info)
      → ℕ
      → ℕ
      → ℕ
      → List (ℕ × ℕ)
      → World L
      → World L × Result (Unit {0})
  run_completion_callbacks call info self easy result snapshot w =
      run_procs call info self easy result snapshot (w.easies easy).callback_error
        (started self easy w)

  -- The ensure block: the flags go, and easy.multi if the easy was not added again.
  abbrev pub flags_clear : ℕ → ℕ → World L → World L
  flags_clear self easy w =
      set_multi (set_active_flag easy false w) self
        (record (w.multis self) { callback_active = false })

  abbrev pub let_go : ℕ → ℕ → World L → World L
  let_go self easy w =
      if belongs_to (w.easies easy).multi self && not (has_easy (w.multis self) easy)
      then set_easy w easy (record (w.easies easy) { multi = none })
      else w

  unfoldable pub finish_completion_callbacks : ℕ → ℕ → World L → World L
  finish_completion_callbacks self easy w = let_go self easy (flags_clear self easy w)

  abbrev pub ensured : ℕ → ℕ → World L × Result (Unit {0}) → World L × Result (Unit {0})
  ensured self easy (w, r) = (finish_completion_callbacks self easy w, r)

  -- The easy leaves the counts, the requests and the table before its procs run.
  abbrev pub taken_off : ℕ → ℕ → World L → World L
  taken_off self easy w =
      set_easy
        (set_multi w self
          (forget_easy (request_forgotten (detached_count (w.multis self)) easy) easy))
        easy (record (cleanup (w.easies easy)) { curl_headers = [] })

  -- For a handle whose easy is found; one that is not is only removed from libcurl.
  unfoldable pub handle_complete :
      (ℕ → ℕ → World L → World L × Result Value)
      → (World L → Info)
      → ℕ
      → ℕ
      → ℕ
      → World L
      → World L × Result (Unit {0})
  handle_complete call info self easy result w =
      let w1 = set_easy w easy (record (w.easies easy) { last_result = result }) in
      let r = L.remove_handle w1.lib (w1.multis self).handle (w1.easies easy).curl in
      if is_ok r.1
      then (let w2 = taken_off self easy (set_lib w1 r.0) in
          let snapshot = capture_attached_easy_snapshot (keys_of (w2.multis self).attached) w2 in
          ensured self easy (run_completion_callbacks call info self easy result snapshot w2))
      else (set_lib w1 r.0, raise (multi_error (code_of r.1)))
