-- ===== src/Multi/Linked/Detach.antt =====
-- Detaching easies in ext/curb_multi.c, and the two sides of an attachment.
use curb.Base.{
  ℕ, ◌≡◌, refl, subst, inl, inr, true, ◌&&◌, none, some, ◌==◌, arith, Bool-cases, Option-cases,
  ==_refl, Option, is_some,
}
use curb.Easy.{Easy}
use curb.Easy.Lifecycle.{cleanup, freed}
use curb.Multi.{
  Multi, Mcode, call_multi_perform, mcode_ok, mcode_error, Libcurl, World, set_easy, set_multi,
  set_lib, set_at, has_key, keys_of, has_easy, forget_easy,
}
use curb.Multi.Attach.{
  is_ok, multi_remove, detach_easy, detached_count, easy_free, easy_multi_set, multi_result,
  detach_from, same_multi,
}
use curb.Multi.Linked.{Linked, set_easy-Linked, forget-gone}
use curb.Multi.Linked.Ops.{Unheld, forget-Linked}

held_there : (old m : ℕ) {held : Option ℕ} → held ≡ some old → held ≡ some m → m ≡ old
held_there old m e back = ground arith

module _ {L : Libcurl} where
  -- No table but that of `self` has the easy.
  abbrev pub Only : World L → ℕ → ℕ → Type 0
  Only w self easy = (m : ℕ) → has_easy (w.multis m) easy ≡ true → m ≡ self

  forget-Unheld :
      (w : World L) (self easy : ℕ) (m : Multi)
      → Linked w
      → Only w self easy
      → m.attached ≡ (forget_easy (w.multis self) easy).attached
      → Unheld (set_multi w self m) easy
  unfolding has_easy
  forget-Unheld w self easy m linked only same j h = elim (Bool-cases (j == self)) [
    | inl e ↦
        forget-gone (w.multis self) easy (linked.1 self)
          (subst (λ t. has_key (keys_of t) easy ≡ true) same (ground arith))
    | inr e ↦ ground (arith, only j)
  ]

  -- An easy that leaves its only table may get any new state.
  release-Linked :
      (w : World L) (self easy : ℕ) (m : Multi) (e : Easy)
      → Linked w
      → Only w self easy
      → m.attached ≡ (forget_easy (w.multis self) easy).attached
      → Linked (set_easy (set_multi w self m) easy e)
  release-Linked w self easy m e linked only same =
      set_easy-Linked (set_multi w self m) easy e (forget-Linked w self easy m linked same)
        (λ j h. absurd (forget-Unheld w self easy m linked only same j h))

  -- libcurl lets a handle go only from the multi that has it.
  abbrev pub Refused : World L → ℕ → ℕ → Type 0
  Refused w self easy =
      is_ok (L.remove_handle w.lib (w.multis self).handle (w.easies easy).curl).1 ≡ true
      → Only w self easy

  pub multi_remove-Linked :
      (self easy : ℕ) (w : World L)
      → Linked w
      → Refused w self easy
      → Linked (multi_remove self easy w).0
  unfolding multi_remove forget_easy
  multi_remove-Linked self easy w linked only =
      let r = L.remove_handle w.lib (w.multis self).handle (w.easies easy).curl in
      let m = forget_easy (detached_count (w.multis self)) easy in
      let e = cleanup (record (w.easies easy) { multi = none }) in
      elim (Bool-cases (is_ok r.1)) [
        | inl fine ↦
            rw (fine, multi_remove)
              (release-Linked (set_lib w r.0) self easy m e linked (only fine) refl)
        | inr bad ↦ rw (bad, multi_remove) linked
      ]

  pub easy_free-Linked : (easy : ℕ) (w : World L) → Linked w → Linked (easy_free easy w)
  unfolding easy_free
  easy_free-Linked easy w linked = elim (Option-cases (w.easies easy).multi) [
    | inl e ↦
        rw (e, easy_free)
          (set_easy-Linked w easy (freed (w.easies easy)) linked
            (λ m h. absurd (ground (arith, linked.0 m easy))))
    | inr (old, e) ↦
        rw (e, easy_free)
          (release-Linked w old easy (forget_easy (w.multis old) easy) (freed (w.easies easy))
            linked (λ m h. held_there old m e (linked.0 m easy h)) refl)
  ]

  detach_easy-easies : (self easy : ℕ) (w : World L) → (detach_easy self easy w).0.easies ≡ w.easies
  unfolding detach_easy
  detach_easy-easies self easy w = ground arith

  detach_easy-Linked : (self easy : ℕ) (w : World L) → Linked w → Linked (detach_easy self easy w).0
  unfolding detach_easy
  detach_easy-Linked self easy w linked = elim (Bool-cases (has_easy (w.multis self) easy)) [
    | inr e ↦ rw (e, detach_easy) linked
    | inl e ↦
        let m = forget_easy (w.multis self) easy in
        elim (Bool-cases (is_some m.handle && is_some (w.easies easy).curl)) [
          | inr gone ↦
              rw (e, gone, detach_easy) (forget-Linked w self easy (detached_count m) linked refl)
          | inl live ↦
              elim (Bool-cases (is_ok (L.remove_handle w.lib m.handle (w.easies easy).curl).1)) [
                | inl fine ↦
                    rw (e, live, fine, detach_easy)
                      (forget-Linked w self easy (detached_count m) linked refl)
                | inr bad ↦ rw (e, live, bad, detach_easy) (forget-Linked w self easy m linked refl)
              ]
        ]
  ]

  forgotten-gone :
      (w : World L) (self easy : ℕ) (m : Multi)
      → Linked w
      → m.attached ≡ (forget_easy (w.multis self) easy).attached
      → has_easy (set_at w.multis self m self) easy ≡ true
      → ⊥
  unfolding has_easy
  forgotten-gone w self easy m linked same h =
      forget-gone (w.multis self) easy (linked.1 self)
        (subst (λ t. has_key (keys_of t) easy ≡ true) same (ground (arith, ==_refl self)))

  detach_easy-gone :
      (self easy : ℕ) (w : World L)
      → Linked w
      → has_easy ((detach_easy self easy w).0.multis self) easy ≡ true
      → ⊥
  unfolding detach_easy
  detach_easy-gone self easy w linked = elim (Bool-cases (has_easy (w.multis self) easy)) [
    | inr e ↦ rw (e, detach_easy) (λ h. cc)
    | inl e ↦
        let m = forget_easy (w.multis self) easy in
        elim (Bool-cases (is_some m.handle && is_some (w.easies easy).curl)) [
          | inr gone ↦
              rw (e, gone, detach_easy) (forgotten-gone w self easy (detached_count m) linked refl)
          | inl live ↦
              elim (Bool-cases (is_ok (L.remove_handle w.lib m.handle (w.easies easy).curl).1)) [
                | inl fine ↦
                    rw (e, live, fine, detach_easy)
                      (forgotten-gone w self easy (detached_count m) linked refl)
                | inr bad ↦
                    rw (e, live, bad, detach_easy) (forgotten-gone w self easy m linked refl)
              ]
        ]
  ]

  -- The easy is in no table once its own multi has let it go.
  detach_from-Unheld :
      (multi : Option ℕ) (easy : ℕ) (w : World L)
      → Linked w
      → (w.easies easy).multi ≡ multi
      → Unheld (detach_from multi easy w).0 easy
  detach_from-Unheld none easy w linked here m h = absurd (ground (arith, linked.0 m easy))
  detach_from-Unheld (some old) easy w linked here m h =
      let back = (detach_easy-Linked old easy w linked).0 m easy h in
      let same = held_there old m (rw (detach_easy-easies old easy w) here) back in
      detach_easy-gone old easy w linked
        (subst (λ j. has_easy ((detach_easy old easy w).0.multis j) easy ≡ true) same h)

  detach_from-Linked :
      (multi : Option ℕ) (easy : ℕ) (w : World L) → Linked w → Linked (detach_from multi easy w).0
  detach_from-Linked none easy w linked = linked
  detach_from-Linked (some old) easy w linked = detach_easy-Linked old easy w linked

  multi_result-Linked :
      (r : World L × Mcode) (easy : ℕ) (multi : Option ℕ)
      → Linked r.0
      → Unheld r.0 easy
      → Linked (multi_result r easy multi).0
  multi_result-Linked (w, mcode_ok) easy multi linked unheld =
      set_easy-Linked w easy (record (w.easies easy) { multi = multi }) linked
        (λ m h. absurd (unheld m h))
  multi_result-Linked (w, mcode_error n) easy multi linked unheld = linked
  multi_result-Linked (w, call_multi_perform) easy multi linked unheld = linked

  pub easy_multi_set-Linked :
      (easy : ℕ) (multi : Option ℕ) (w : World L)
      → Linked w
      → Linked (easy_multi_set easy multi w).0
  unfolding easy_multi_set
  easy_multi_set-Linked easy multi w linked =
      elim (Bool-cases (same_multi (w.easies easy).multi multi)) [
        | inl same ↦ rw (same, easy_multi_set) linked
        | inr other ↦
            rw (other, easy_multi_set)
              (multi_result-Linked (detach_from (w.easies easy).multi easy w) easy multi
                (detach_from-Linked (w.easies easy).multi easy w linked)
                (detach_from-Unheld (w.easies easy).multi easy w linked refl))
      ]
