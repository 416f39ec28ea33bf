-- ===== src/Multi/Linked/Close.antt =====
-- Closing a multi in ext/curb_multi.c and finishing a transfer, and the two sides of an attachment.
use curb.Base.{
  ℕ, ◌≡◌, refl, inl, inr, true, false, ◌&&◌, none, List, [], ◌∷◌, ◌==◌, arith, Bool-cases,
  Option-cases, ==_refl, not,
}
use curb.Easy.Lifecycle.{cleanup}
use curb.Multi.{Libcurl, World, set_multi, has_key, has_easy, forget_easy}
use curb.Multi.Attach.{
  detach_all, detach_entries, detach_easy_entry, cleaned_up, multi_close, close_refused,
  detached_count,
}
use curb.Multi.Complete.{
  taken_off, finish_completion_callbacks, let_go, flags_clear, belongs_to, set_active_flag,
  request_forgotten,
}
use curb.Multi.Deferred.{
  clear_multi_deferred_exception_if_any, clear_multi_deferred_exception_source_id_if_any,
}
use curb.Multi.Linked.{Linked, set_easy-Linked}
use curb.Multi.Linked.Ops.{Unheld, touch-Linked, work-Linked, forget-Linked, empty-Linked}

module _ {L : Libcurl} where
  entry-Linked :
      (self easy : ℕ) (w : World L)
      → Linked w
      → Unheld w easy
      → Linked (detach_easy_entry self easy w)
  unfolding detach_easy_entry
  entry-Linked self easy w linked unheld =
      set_easy-Linked w easy (record (w.easies easy) { multi = none }) linked
        (λ m h. absurd (unheld m h))

  entries-Linked :
      (self : ℕ) (keys : List ℕ) (w : World L)
      → Linked w
      → ((k : ℕ) → has_key keys k ≡ true → Unheld w k)
      → Linked (detach_entries self keys w)
  unfolding detach_entries detach_easy_entry
  entries-Linked self [] w linked unheld = linked
  entries-Linked self (k ∷ ks) w linked unheld =
      entries-Linked self ks (detach_easy_entry self k w)
        (entry-Linked self k w linked (unheld k (rw (==_refl k) refl)))
        (λ j h. unheld j (ground arith))

  detach_all-Linked : (self : ℕ) (w : World L) → Linked w → Linked (detach_all self w)
  unfolding detach_all has_easy
  detach_all-Linked self w linked = elim (Option-cases (w.multis self).attached) [
    | inl e ↦ rw (e, detach_all) linked
    | inr (keys, e) ↦
        let bare = record (w.multis self) { attached = none } in
        let w' = detach_entries self keys (set_multi w self bare) in
        rw (e, detach_all)
          (work-Linked w' self (record (w'.multis self) { active = 0; running = 0 })
            (entries-Linked self keys (set_multi w self bare) (empty-Linked w self bare linked refl)
              (λ k h m there. elim (Bool-cases (m == self)) [
                | inl same ↦ ground arith
                | inr other ↦ ground (arith, linked.0 m k, linked.0 self k)
              ]))
            refl)
  ]

  cleaned_up-Linked : (self : ℕ) (w : World L) → Linked w → Linked (cleaned_up self w)
  cleaned_up-Linked self w linked = elim (Option-cases (w.multis self).handle) [
    | inl e ↦ rw (e, cleaned_up) linked
    | inr (handle, e) ↦
        rw (e, cleaned_up)
          (work-Linked w self (record (w.multis self) { handle = none }) linked refl)
  ]

  pub multi_close-Linked : (self : ℕ) (w : World L) → Linked w → Linked (multi_close self w).0
  unfolding multi_close clear_multi_deferred_exception_if_any
      clear_multi_deferred_exception_source_id_if_any
  multi_close-Linked self w linked = elim (Bool-cases (close_refused (w.multis self))) [
    | inl e ↦ rw (e, multi_close) linked
    | inr e ↦
        let w' = cleaned_up self (detach_all self w) in
        rw (e, multi_close)
          (work-Linked w' self _
            (cleaned_up-Linked self (detach_all self w) (detach_all-Linked self w linked)) refl)
  ]

  pub taken_off-Linked : (self easy : ℕ) (w : World L) → Linked w → Linked (taken_off self easy w)
  unfolding forget_easy cleanup
  taken_off-Linked self easy w linked =
      let m = forget_easy (request_forgotten (detached_count (w.multis self)) easy) easy in
      touch-Linked (set_multi w self m) easy
        (record (cleanup (w.easies easy)) { curl_headers = [] })
        (forget-Linked w self easy m linked refl) refl

  let_go-Linked : (self easy : ℕ) (w : World L) → Linked w → Linked (let_go self easy w)
  let_go-Linked self easy w linked =
      elim (Bool-cases
        (belongs_to (w.easies easy).multi self && not (has_easy (w.multis self) easy))) [
          | inr e ↦ rw (e, let_go) linked
          | inl e ↦
              rw (e, let_go)
                (set_easy-Linked w easy (record (w.easies easy) { multi = none }) linked
                  (λ m h.
                    let back = linked.0 m easy h in
                    absurd (elim (Bool-cases (m == self)) [
                      | inl same ↦ ground arith
                      | inr other ↦ ground arith
                    ])))
        ]

  pub finish-Linked :
      (self easy : ℕ) (w : World L) → Linked w → Linked (finish_completion_callbacks self easy w)
  unfolding finish_completion_callbacks
  finish-Linked self easy w linked =
      let w' = set_active_flag easy false w in
      let_go-Linked self easy (flags_clear self easy w) (
        work-Linked w' self (record (w'.multis self) { callback_active = false })
          (touch-Linked w easy (record (w.easies easy) { callback_active = false }) linked refl)
          refl)
