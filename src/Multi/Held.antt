-- ===== src/Multi/Held.antt =====
-- Where an easy is after it has been added to a multi (ext/curb_multi.c).
use curb.Base.{ℕ, ◌≡◌, refl, sym, ◌∙◌, true, ==_refl, inl, inr, Bool-cases}
use curb.Easy.{Easy}
use curb.Multi.{
  Mcode, call_multi_perform, mcode_ok, mcode_error, Libcurl, World, set_easy, set_lib, set_at,
  has_easy,
}
use curb.Multi.Attach.{ensure_handle, multi_add, add_ready, set_up, added, held_elsewhere}
use curb.Ruby.{Result, ok, raise, runtime_error}

module _ {L : Libcurl} where
  added-held :
      (self easy : ℕ) (w : World L) (code : Mcode)
      → (added self easy w code).1 ≡ ok tt
      → has_easy ((added self easy w code).0.multis self) easy ≡ true
  unfolding has_easy
  added-held self easy w mcode_ok h = rw (==_refl self) (rw (==_refl easy) refl)
  added-held self easy w call_multi_perform h = rw (==_refl self) (rw (==_refl easy) refl)
  added-held self easy w (mcode_error n) h = cc

  set_up-held :
      (self easy : ℕ) (w : World L) (r : Easy × Result (Unit {0}))
      → (set_up self easy w r).1 ≡ ok tt
      → has_easy ((set_up self easy w r).0.multis self) easy ≡ true
  set_up-held self easy w (e, raise x) h = cc
  set_up-held self easy w (e, ok u) h =
      let r = L.add_handle w.lib (w.multis self).handle (set_at w.easies easy e easy).curl in
      added-held self easy (set_lib (set_easy w easy e) r.0) r.1 h

  add_ready-held :
      (setup : Easy → Easy × Result (Unit {0})) (self easy : ℕ) (r : World L × Result (Unit {0}))
      → (add_ready setup self easy r).1 ≡ ok tt
      → has_easy ((add_ready setup self easy r).0.multis self) easy ≡ true
  add_ready-held setup self easy (w, raise x) h = cc
  add_ready-held setup self easy (w, ok u) h = elim (Bool-cases (has_easy (w.multis self) easy)) [
    | inl e ↦ rw e e
    | inr e ↦ elim (Bool-cases (held_elsewhere (w.easies easy).multi self easy w)) [
      | inl o ↦ absurd (refused (sym (rw (e, o) refl) ∙ h))
      | inr o ↦
          rw (e, o) (set_up-held self easy w (setup (w.easies easy)) (sym (rw (e, o) refl) ∙ h))
    ]
  ]
    where
      refused : ◌≡◌ {A = Result (Unit {0})} (raise runtime_error) (ok tt) → ⊥
      refused t = cc

  -- When multi.add does not raise, the easy is in the table of the multi.
  multi_add-held :
      (setup : Easy → Easy × Result (Unit {0})) (self easy : ℕ) (w : World L)
      → (multi_add setup self easy w).1 ≡ ok tt
      → has_easy ((multi_add setup self easy w).0.multis self) easy ≡ true
  unfolding multi_add
  multi_add-held setup self easy w h = add_ready-held setup self easy (ensure_handle self w) h
