-- ===== src/Multi/Close.antt =====
-- What closing a multi leaves (ext/curb_multi.c).
use curb.Base.{
  ℕ, ◌≡◌, refl, ◌∙◌, true, false, none, List, [], ◌∷◌, inl, inr, ◌⊎◌, Option-cases, Bool-cases,
  arith, ==_refl, ◌==◌,
}
use curb.Multi.{Multi, Libcurl, World, set_multi, has_easy, has_key}
use curb.Multi.Attach.{
  multi_close, close_refused, detach_all, detach_entries, detach_easy_entry, cleaned_up,
}
use curb.Multi.Deferred.{
  clear_multi_deferred_exception_if_any, clear_multi_deferred_exception_source_id_if_any,
}
use curb.Ruby.{ok, raise, runtime_error}

-- What a closed multi is: no handle, no table, nothing counted, nothing deferred.
abbrev pub Closed : Multi → Type 0
Closed m =
    (m.handle ≡ none)
    × (m.attached ≡ none)
    × (m.active ≡ 0)
    × (m.running ≡ 0)
    × (m.deferred_exception ≡ none)
    × (m.deferred_source ≡ none)

-- While it performs, or in a callback, and not where that was allowed.
abbrev pub Busy : Multi → Type 0
Busy m =
    ((m.perform_active ≡ true) ⊎ (m.callback_active ≡ true))
    × (m.allow_close_during_perform ≡ false)

refused-Busy : (m : Multi) → close_refused m ≡ true → Busy m
refused-Busy m h = ground arith

Busy-refused : (m : Multi) → close_refused m ≡ false → Busy m → ⊥
Busy-refused m h busy = ground arith

module _ {L : Libcurl} where
  detach_entries-multis :
      (self : ℕ) (keys : List ℕ) (w : World L) → (detach_entries self keys w).multis ≡ w.multis
  unfolding detach_entries detach_easy_entry
  detach_entries-multis self [] w = refl
  detach_entries-multis self (k ∷ ks) w = detach_entries-multis self ks (detach_easy_entry self k w)

  entry-loose :
      (self k i : ℕ) (w : World L)
      → ((i == k) ≡ true) ⊎ ((w.easies i).multi ≡ none)
      → ((detach_easy_entry self k w).easies i).multi ≡ none
  unfolding detach_easy_entry
  entry-loose self k i w h = elim (Bool-cases (i == k)) [
    | inl e ↦ rw e refl
    | inr e ↦ rw e (ground arith)
  ]

  loose-stays :
      (self : ℕ) (keys : List ℕ) (i : ℕ) (w : World L)
      → (w.easies i).multi ≡ none
      → ((detach_entries self keys w).easies i).multi ≡ none
  unfolding detach_entries
  loose-stays self [] i w h = h
  loose-stays self (k ∷ ks) i w h =
      loose-stays self ks i (detach_easy_entry self k w) (entry-loose self k i w (inr h))

  -- Each easy of the table is let go.
  entries-loose :
      (self : ℕ) (keys : List ℕ) (i : ℕ) (w : World L)
      → has_key keys i ≡ true
      → ((detach_entries self keys w).easies i).multi ≡ none
  unfolding detach_entries
  entries-loose self [] i w h = absurd (ground arith)
  entries-loose self (k ∷ ks) i w h = elim (Bool-cases (k == i)) [
    | inl e ↦
        loose-stays self ks i (detach_easy_entry self k w)
          (entry-loose self k i w (inl (ground arith)))
    | inr e ↦ entries-loose self ks i (detach_easy_entry self k w) (ground arith)
  ]

  detach_all-loose :
      (self : ℕ) (i : ℕ) (w : World L)
      → has_easy (w.multis self) i ≡ true
      → ((detach_all self w).easies i).multi ≡ none
  unfolding has_easy detach_all
  detach_all-loose self i w h = elim (Option-cases (w.multis self).attached) [
    | inl e ↦ absurd (ground arith)
    | inr (keys, e) ↦ rw (e, detach_all) (entries-loose self keys i _ (ground arith))
  ]

  cleaned_up-easies : (self : ℕ) (w : World L) → (cleaned_up self w).easies ≡ w.easies
  cleaned_up-easies self w = elim (Option-cases (w.multis self).handle) [
    | inl e ↦ rw (e, cleaned_up) refl
    | inr (handle, e) ↦ rw (e, cleaned_up) refl
  ]

  cleaned_up-handle : (self : ℕ) (w : World L) → ((cleaned_up self w).multis self).handle ≡ none
  cleaned_up-handle self w = elim (Option-cases (w.multis self).handle) [
    | inl e ↦ rw (e, cleaned_up) e
    | inr (handle, e) ↦ rw (e, cleaned_up, ==_refl self) refl
  ]

  detach_all-attached : (self : ℕ) (w : World L) → ((detach_all self w).multis self).attached ≡ none
  unfolding detach_all
  detach_all-attached self w = elim (Option-cases (w.multis self).attached) [
    | inl e ↦ rw (e, detach_all) e
    | inr (keys, e) ↦
        let bare = set_multi w self (record (w.multis self) { attached = none }) in
        rw (e, detach_all, ==_refl self)
          (rw (detach_entries-multis self keys bare, ==_refl self) refl)
  ]

  cleaned_up-attached :
      (self : ℕ) (w : World L)
      → ((cleaned_up self w).multis self).attached ≡ (w.multis self).attached
  cleaned_up-attached self w = elim (Option-cases (w.multis self).handle) [
    | inl e ↦ rw (e, cleaned_up) refl
    | inr (handle, e) ↦ rw (e, cleaned_up, ==_refl self) refl
  ]

  -- Closing a multi is refused exactly if it performs or is in a callback and closing meanwhile was not
  -- allowed: then it raises and changes nothing. If not, the multi is left with no handle, no table, no
  -- active or running transfer and no deferred exception, and each easy of its table no longer points
  -- to it.
  pub multi_close-Closed :
      (self : ℕ) (w : World L)
      → (Busy (w.multis self) × (multi_close self w ≡ (w, raise runtime_error)))
        ⊎ (¬ (Busy (w.multis self))
            × ((multi_close self w).1 ≡ ok tt)
            × Closed ((multi_close self w).0.multis self)
            × ((i : ℕ)
                → has_easy (w.multis self) i ≡ true
                → ((multi_close self w).0.easies i).multi ≡ none))
  unfolding multi_close clear_multi_deferred_exception_if_any
      clear_multi_deferred_exception_source_id_if_any
  multi_close-Closed self w = elim (Bool-cases (close_refused (w.multis self))) [
    | inl e ↦ inl (refused-Busy (w.multis self) e, rw (e, multi_close) refl)
    | inr e ↦ inr (
      Busy-refused (w.multis self) e,
      rw (e, multi_close) refl,
      rw (e, multi_close, ==_refl self)
          (
            cleaned_up-handle self (detach_all self w),
            cleaned_up-attached self (detach_all self w) ∙ detach_all-attached self w,
            refl,
            refl,
            refl,
            refl,
          ),
      λ i h.
          rw (e, multi_close, cleaned_up-easies self (detach_all self w))
            (detach_all-loose self i w h),
    )
  ]
