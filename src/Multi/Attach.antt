-- ===== src/Multi/Attach.antt =====
-- Attaching easies to a multi and detaching them, in ext/curb_multi.c, and easy.multi= and the
-- detaching that frees an easy, in ext/curb_easy.c.
use curb.Base.{
  ℕ, ◌+◌, ◌-◌, Bool, true, false, ◌&&◌, ◌||◌, not, Option, none, some, List, [], ◌∷◌, ◌==◌,
  if◌then◌else◌, is_some,
}
use curb.Base.Int.{ℤ, pos, negsuc}
use curb.Easy.{Easy}
use curb.Easy.Lifecycle.{cleanup, freed}
use curb.Multi.{
  Multi, Mcode, call_multi_perform, mcode_ok, mcode_error, Libcurl, World, set_easy, set_multi,
  set_lib, keys_of, has_easy, forget_easy,
}
use curb.Multi.Deferred.{
  clear_multi_deferred_exception_if_any, clear_multi_deferred_exception_source_id_if_any,
}
use curb.Ruby.{runtime_error, multi_init_error, multi_error, Result, ok, raise}

-- The fields of a multi after ruby_curl_multi_init.
abbrev pub initialised : Multi → ℕ → Multi
initialised m handle = record m {
  handle = some handle;
  active = 0;
  running = 0;
  closed = false;
  perform_active = false;
  callback_active = false;
  allow_close_during_perform = false;
  attached = some [];
}

abbrev pub is_ok : Mcode → Bool
is_ok mcode_ok = true
is_ok call_multi_perform = false
is_ok (mcode_error n) = false

abbrev pub code_of : Mcode → ℤ
code_of (mcode_error n) = pos n
code_of mcode_ok = pos 0
code_of call_multi_perform = negsuc 0

abbrev pub detached_count : Multi → Multi
detached_count m = record m { active = m.active - 1 }

abbrev pub close_refused : Multi → Bool
close_refused m = (m.perform_active || m.callback_active) && not m.allow_close_during_perform

abbrev pub same_multi : Option ℕ → Option ℕ → Bool
same_multi none none = true
same_multi none (some n) = false
same_multi (some m) none = false
same_multi (some m) (some n) = m == n

module _ {L : Libcurl} where
  unfoldable pub multi_init : ℕ → World L → World L × Result (Unit {0})
  multi_init self w =
      let r = L.multi_init w.lib in
      elim r.1 [
        | none ↦ (set_lib w r.0, raise multi_init_error)
        | some handle ↦ (set_multi (set_lib w r.0) self (initialised (w.multis self) handle), ok tt)
      ]

  -- CURLM_BAD_HANDLE is 1.
  unfoldable pub ensure_handle : ℕ → World L → World L × Result (Unit {0})
  ensure_handle self w = elim (w.multis self).handle [
    | some handle ↦ (w, ok tt)
    | none ↦ if (w.multis self).closed then (w, raise (multi_error (pos 1))) else multi_init self w
  ]

  -- An easy that another multi holds cannot be added.
  abbrev pub held_elsewhere : Option ℕ → ℕ → ℕ → World L → Bool
  held_elsewhere none self easy w = false
  held_elsewhere (some other) self easy w = not (other == self) && has_easy (w.multis other) easy

  -- The table gets the easy, and the counts go up.
  abbrev pub attach : ℕ → ℕ → World L → World L
  attach self easy w =
      let m = w.multis self in
      let e = w.easies easy in
      set_multi
        (set_easy w easy (record e {
          multi_attachment_generation = e.multi_attachment_generation + 1;
          multi = some self;
        }))
        self
        (record m {
          active = m.active + 1;
          running = m.running + 1;
          attached = some (easy ∷ keys_of m.attached);
        })

  -- What follows curl_multi_add_handle.
  abbrev pub added : ℕ → ℕ → World L → Mcode → World L × Result (Unit {0})
  added self easy w mcode_ok = (attach self easy w, ok tt)
  added self easy w call_multi_perform = (attach self easy w, ok tt)
  added self easy w (mcode_error n) =
      (set_easy w easy (cleanup (w.easies easy)), raise (multi_error (pos n)))

  abbrev pub add_handle : ℕ → ℕ → World L → World L × Result (Unit {0})
  add_handle self easy w =
      let r = L.add_handle w.lib (w.multis self).handle (w.easies easy).curl in
      added self easy (set_lib w r.0) r.1

  -- What follows ruby_curl_easy_setup, which gives the easy it leaves and may raise.
  abbrev pub set_up : ℕ → ℕ → World L → Easy × Result (Unit {0}) → World L × Result (Unit {0})
  set_up self easy w (e, raise x) = (set_easy w easy e, raise x)
  set_up self easy w (e, ok u) = add_handle self easy (set_easy w easy e)

  abbrev pub add_ready :
      (Easy → Easy × Result (Unit {0}))
      → ℕ
      → ℕ
      → World L × Result (Unit {0})
      → World L × Result (Unit {0})
  add_ready setup self easy (w, raise x) = (w, raise x)
  add_ready setup self easy (w, ok u) =
      if has_easy (w.multis self) easy
      then (w, ok tt)
      else if held_elsewhere (w.easies easy).multi self easy w
      then (w, raise runtime_error)
      else set_up self easy w (setup (w.easies easy))

  -- multi.add(easy)
  unfoldable pub multi_add :
      (Easy → Easy × Result (Unit {0})) → ℕ → ℕ → World L → World L × Result (Unit {0})
  multi_add setup self easy w = add_ready setup self easy (ensure_handle self w)

  abbrev pub removed : ℕ → ℕ → World L → World L
  removed self easy w =
      set_multi (set_easy w easy (cleanup (record (w.easies easy) { multi = none }))) self
        (forget_easy (detached_count (w.multis self)) easy)

  -- multi.remove(easy)
  unfoldable pub multi_remove : ℕ → ℕ → World L → World L × Result (Unit {0})
  multi_remove self easy w =
      let r = L.remove_handle w.lib (w.multis self).handle (w.easies easy).curl in
      if is_ok r.1
      then (removed self easy (set_lib w r.0), ok tt)
      else (set_lib w r.0, raise (multi_error (code_of r.1)))

  -- rb_curl_multi_detach_easy deletes the key first: an error of libcurl comes after that.
  unfoldable pub detach_easy : ℕ → ℕ → World L → World L × Mcode
  detach_easy self easy w =
      if has_easy (w.multis self) easy
      then (let m = forget_easy (w.multis self) easy in
          if is_some m.handle && is_some (w.easies easy).curl
          then (let r = L.remove_handle w.lib m.handle (w.easies easy).curl in
              if is_ok r.1
              then (set_multi (set_lib w r.0) self (detached_count m), mcode_ok)
              else (set_multi (set_lib w r.0) self m, r.1))
          else (set_multi w self (detached_count m), mcode_ok))
      else (w, mcode_ok)

  -- One entry of the table, in rb_curl_multi_detach_all.
  unfoldable pub detach_easy_entry : ℕ → ℕ → World L → World L
  detach_easy_entry self easy w =
      let l =
        if is_some (w.multis self).handle && is_some (w.easies easy).curl
        then (L.remove_handle w.lib (w.multis self).handle (w.easies easy).curl).0
        else w.lib in
      set_easy (set_lib w l) easy (record (w.easies easy) { multi = none })

  unfoldable pub detach_entries : ℕ → List ℕ → World L → World L
  detach_entries self [] w = w
  detach_entries self (easy ∷ easies) w = detach_entries self easies (detach_easy_entry self easy w)

  -- The table is taken off before its entries are visited.
  unfoldable pub detach_all : ℕ → World L → World L
  detach_all self w = elim (w.multis self).attached [
    | none ↦ w
    | some keys ↦
        let w' =
          detach_entries self keys
            (set_multi w self (record (w.multis self) { attached = none })) in
        set_multi w' self (record (w'.multis self) { active = 0; running = 0 })
  ]

  abbrev pub cleaned_up : ℕ → World L → World L
  cleaned_up self w = elim (w.multis self).handle [
    | none ↦ w
    | some handle ↦
        set_multi (set_lib w (L.multi_cleanup w.lib handle)) self
          (record (w.multis self) { handle = none })
  ]

  -- multi.close
  unfoldable pub multi_close : ℕ → World L → World L × Result (Unit {0})
  multi_close self w =
      if close_refused (w.multis self)
      then (w, raise runtime_error)
      else (let w' = cleaned_up self (detach_all self w) in
          (
            set_multi w' self (
                clear_multi_deferred_exception_source_id_if_any
                  (clear_multi_deferred_exception_if_any
                    (record (w'.multis self) { active = 0; running = 0 })).0),
            ok tt,
          ))

  unfoldable pub mark_closed : ℕ → World L → World L
  mark_closed self w = set_multi w self (record (w.multis self) { closed = true })

  abbrev pub multi_result : World L × Mcode → ℕ → Option ℕ → World L × Result (Option ℕ)
  multi_result (w, mcode_ok) easy multi =
      (set_easy w easy (record (w.easies easy) { multi = multi }), ok multi)
  multi_result (w, mcode_error n) easy multi = (w, raise (multi_error (pos n)))
  multi_result (w, call_multi_perform) easy multi = (w, raise (multi_error (negsuc 0)))

  abbrev pub detach_from : Option ℕ → ℕ → World L → World L × Mcode
  detach_from none easy w = (w, mcode_ok)
  detach_from (some old) easy w = detach_easy old easy w

  -- easy.multi = multi, for a Curl::Multi or nil
  unfoldable pub easy_multi_set : ℕ → Option ℕ → World L → World L × Result (Option ℕ)
  easy_multi_set easy multi w =
      if same_multi (w.easies easy).multi multi
      then (w, ok (w.easies easy).multi)
      else multi_result (detach_from (w.easies easy).multi easy w) easy multi

  -- ruby_curl_easy_free: the multi is told nothing but the key.
  unfoldable pub easy_free : ℕ → World L → World L
  easy_free easy w = elim (w.easies easy).multi [
    | none ↦ set_easy w easy (freed (w.easies easy))
    | some old ↦
        let l =
          if is_some (w.multis old).handle && is_some (w.easies easy).curl
          then (L.remove_handle w.lib (w.multis old).handle (w.easies easy).curl).0
          else w.lib in
        set_easy (set_multi (set_lib w l) old (forget_easy (w.multis old) easy)) easy
          (freed (w.easies easy))
  ]
