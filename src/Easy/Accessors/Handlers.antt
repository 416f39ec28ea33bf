-- ===== src/Easy/Accessors/Handlers.antt =====
-- The handlers that an easy takes as blocks, in ext/curb_easy.c; a proc is a number.
use curb.Base.{ℕ, ◌==◌, ◌≡◌, refl, ◌<◌, Option, none, List, [], ◌∷◌, if◌then◌else◌, arith}
use curb.Easy.{Easy, Opts}
use curb.Easy.Accessors.{entry, replace, entry-replace}

-- CURB_HANDLER_PROC_HSETTER: no block is nil, and the proc that was there is given back.
unfoldable pub handler_proc_hset :
    (Opts → Option ℕ) → (Option ℕ → Opts → Opts) → Option ℕ → Easy → Easy × Option ℕ
handler_proc_hset get put block e = (record e { opts = put block (e.opts) }, get e.opts)

unfoldable pub on_body_set : Option ℕ → Easy → Easy × Option ℕ
on_body_set = handler_proc_hset (λ o. o.body_proc) λ block o. record o { body_proc = block }

unfoldable pub on_success_set : Option ℕ → Easy → Easy × Option ℕ
on_success_set =
    handler_proc_hset (λ o. o.success_proc) λ block o. record o { success_proc = block }

unfoldable pub on_failure_set : Option ℕ → Easy → Easy × Option ℕ
on_failure_set =
    handler_proc_hset (λ o. o.failure_proc) λ block o. record o { failure_proc = block }

unfoldable pub on_missing_set : Option ℕ → Easy → Easy × Option ℕ
on_missing_set =
    handler_proc_hset (λ o. o.missing_proc) λ block o. record o { missing_proc = block }

unfoldable pub on_redirect_set : Option ℕ → Easy → Easy × Option ℕ
on_redirect_set =
    handler_proc_hset (λ o. o.redirect_proc) λ block o. record o { redirect_proc = block }

unfoldable pub on_complete_set : Option ℕ → Easy → Easy × Option ℕ
on_complete_set =
    handler_proc_hset (λ o. o.complete_proc) λ block o. record o { complete_proc = block }

unfoldable pub on_header_set : Option ℕ → Easy → Easy × Option ℕ
on_header_set = handler_proc_hset (λ o. o.header_proc) λ block o. record o { header_proc = block }

unfoldable pub on_progress_set : Option ℕ → Easy → Easy × Option ℕ
on_progress_set =
    handler_proc_hset (λ o. o.progress_proc) λ block o. record o { progress_proc = block }

unfoldable pub on_debug_set : Option ℕ → Easy → Easy × Option ℕ
on_debug_set = handler_proc_hset (λ o. o.debug_proc) λ block o. record o { debug_proc = block }

pub data Handler : Type 0 where
  body_proc success_proc failure_proc missing_proc redirect_proc complete_proc header_proc
        progress_proc debug_proc :
      Handler

abbrev pub handler_set : Handler → Option ℕ → Easy → Easy × Option ℕ
handler_set body_proc = on_body_set
handler_set success_proc = on_success_set
handler_set failure_proc = on_failure_set
handler_set missing_proc = on_missing_set
handler_set redirect_proc = on_redirect_set
handler_set complete_proc = on_complete_set
handler_set header_proc = on_header_set
handler_set progress_proc = on_progress_set
handler_set debug_proc = on_debug_set

abbrev pub handler_of : Handler → Easy → Option ℕ
handler_of body_proc e = e.opts.body_proc
handler_of success_proc e = e.opts.success_proc
handler_of failure_proc e = e.opts.failure_proc
handler_of missing_proc e = e.opts.missing_proc
handler_of redirect_proc e = e.opts.redirect_proc
handler_of complete_proc e = e.opts.complete_proc
handler_of header_proc e = e.opts.header_proc
handler_of progress_proc e = e.opts.progress_proc
handler_of debug_proc e = e.opts.debug_proc

abbrev pub handler_index : Handler → ℕ
handler_index body_proc = 0
handler_index success_proc = 1
handler_index failure_proc = 2
handler_index missing_proc = 3
handler_index redirect_proc = 4
handler_index complete_proc = 5
handler_index header_proc = 6
handler_index progress_proc = 7
handler_index debug_proc = 8

abbrev pub handler_table : Easy → List (Option ℕ)
handler_table e =
    e.opts.body_proc ∷ e.opts.success_proc ∷ e.opts.failure_proc ∷ e.opts.missing_proc
    ∷ e.opts.redirect_proc ∷ e.opts.complete_proc ∷ e.opts.header_proc ∷ e.opts.progress_proc
    ∷ e.opts.debug_proc ∷ []

pub handler_of-entry :
    (h : Handler) (e : Easy) → handler_of h e ≡ entry none (handler_table e) (handler_index h)
handler_of-entry body_proc e = refl
handler_of-entry success_proc e = refl
handler_of-entry failure_proc e = refl
handler_of-entry missing_proc e = refl
handler_of-entry redirect_proc e = refl
handler_of-entry complete_proc e = refl
handler_of-entry header_proc e = refl
handler_of-entry progress_proc e = refl
handler_of-entry debug_proc e = refl

handler_set-table :
    (h : Handler) (block : Option ℕ) (e : Easy)
    → handler_table (handler_set h block e).0 ≡ replace (handler_table e) (handler_index h) block
unfolding handler_proc_hset on_body_set on_success_set on_failure_set on_missing_set on_redirect_set
    on_complete_set on_header_set on_progress_set on_debug_set
handler_set-table body_proc block e = refl
handler_set-table success_proc block e = refl
handler_set-table failure_proc block e = refl
handler_set-table missing_proc block e = refl
handler_set-table redirect_proc block e = refl
handler_set-table complete_proc block e = refl
handler_set-table header_proc block e = refl
handler_set-table progress_proc block e = refl
handler_set-table debug_proc block e = refl

handler_index-less : (h : Handler) → handler_index h < 9
handler_index-less body_proc = omega arith
handler_index-less success_proc = omega arith
handler_index-less failure_proc = omega arith
handler_index-less missing_proc = omega arith
handler_index-less redirect_proc = omega arith
handler_index-less complete_proc = omega arith
handler_index-less header_proc = omega arith
handler_index-less progress_proc = omega arith
handler_index-less debug_proc = omega arith

-- A setter changes the handler it is for and no other.
pub handler_of-set :
    (h g : Handler) (block : Option ℕ) (e : Easy)
    → handler_of h (handler_set g block e).0
      ≡ (if handler_index h == handler_index g then block else handler_of h e)
handler_of-set h g block e =
    rw
      (
        handler_of-entry h (handler_set g block e).0,
        handler_of-entry h e,
        handler_set-table g block e,
      )
      (entry-replace none (handler_table e) (handler_index h) (handler_index g) block
        (handler_index-less g))

-- And it gives back the one that was there.
handler_set-old :
    (h : Handler) (block : Option ℕ) (e : Easy) → (handler_set h block e).1 ≡ handler_of h e
unfolding handler_proc_hset on_body_set on_success_set on_failure_set on_missing_set on_redirect_set
    on_complete_set on_header_set on_progress_set on_debug_set
handler_set-old body_proc block e = refl
handler_set-old success_proc block e = refl
handler_set-old failure_proc block e = refl
handler_set-old missing_proc block e = refl
handler_set-old redirect_proc block e = refl
handler_set-old complete_proc block e = refl
handler_set-old header_proc block e = refl
handler_set-old progress_proc block e = refl
handler_set-old debug_proc block e = refl
