-- ===== src/Multi/Linked/Ops.antt =====
-- What the operations of ext/curb_multi.c do to the two sides of an attachment.
use curb.Base.{
  ℕ, ◌+◌, ◌≡◌, refl, ◌∙◌, subst, inl, inr, true, false, some, [], ◌==◌, arith, Bool-cases,
  Option-cases,
}
use curb.Easy.{Easy}
use curb.Easy.Lifecycle.{cleanup}
use curb.Multi.{
  Multi, Mcode, call_multi_perform, mcode_ok, mcode_error, Libcurl, World, set_easy, set_multi,
  set_lib, set_at, has_key, keys_of, has_easy, forget_easy,
}
use curb.Multi.Attach.{
  ensure_handle, multi_init, multi_add, add_ready, set_up, added, held_elsewhere, attach,
  initialised,
}
use curb.Multi.Linked.{Linked, set_easy-Linked, set_multi-Linked, forget-has, forget-Tabled}
use curb.Ruby.{Result, ok, raise}

-- The setup that an added easy gets does not touch its `multi`.
abbrev pub Keeps : (Easy → Easy × Result (Unit {0})) → Type 0
Keeps setup = (e : Easy) → (setup e).0.multi ≡ e.multi

module _ {L : Libcurl} where
  -- An easy whose `multi` stays as it is.
  pub touch-Linked :
      (w : World L) (easy : ℕ) (e : Easy)
      → Linked w
      → e.multi ≡ (w.easies easy).multi
      → Linked (set_easy w easy e)
  touch-Linked w easy e linked same =
      set_easy-Linked w easy e linked (λ m h. same ∙ linked.0 m easy h)

  -- A multi whose table stays, or loses a key.
  pub work-Linked :
      (w : World L) (self : ℕ) (m : Multi)
      → Linked w
      → m.attached ≡ (w.multis self).attached
      → Linked (set_multi w self m)
  unfolding has_easy
  work-Linked w self m linked same =
      set_multi-Linked w self m linked (rw same (linked.1 self))
        (λ k h. linked.0 self k (subst (λ t. has_key (keys_of t) k ≡ true) same h))

  pub forget-Linked :
      (w : World L) (self easy : ℕ) (m : Multi)
      → Linked w
      → m.attached ≡ (forget_easy (w.multis self) easy).attached
      → Linked (set_multi w self m)
  unfolding has_easy
  forget-Linked w self easy m linked same =
      set_multi-Linked w self m linked
        (rw same (forget-Tabled (w.multis self) easy (linked.1 self)))
        (λ k h.
          linked.0 self k
            (forget-has (w.multis self) easy k (subst (λ t. has_key (keys_of t) k ≡ true) same h)))

  pub empty-Linked :
      (w : World L) (self : ℕ) (m : Multi)
      → Linked w
      → keys_of m.attached ≡ []
      → Linked (set_multi w self m)
  unfolding has_easy
  empty-Linked w self m linked none_left =
      set_multi-Linked w self m linked (rw none_left tt) (λ k h. absurd (ground arith))

  multi_init-Linked : (self : ℕ) (w : World L) → Linked w → Linked (multi_init self w).0
  unfolding multi_init
  multi_init-Linked self w linked = elim (Option-cases (L.multi_init w.lib).1) [
    | inl e ↦ rw (e, multi_init) linked
    | inr (handle, e) ↦
        rw (e, multi_init)
          (empty-Linked (set_lib w (L.multi_init w.lib).0) self (initialised (w.multis self) handle)
            linked refl)
  ]

  pub ensure_handle-Linked : (self : ℕ) (w : World L) → Linked w → Linked (ensure_handle self w).0
  unfolding ensure_handle
  ensure_handle-Linked self w linked = elim (Option-cases (w.multis self).handle) [
    | inr (handle, e) ↦ rw (e, ensure_handle) linked
    | inl e ↦ elim (Bool-cases (w.multis self).closed) [
      | inl c ↦ rw (e, c, ensure_handle) linked
      | inr c ↦ rw (e, c, ensure_handle) (multi_init-Linked self w linked)
    ]
  ]

  abbrev pub Unheld : World L → ℕ → Type 0
  Unheld w easy = (m : ℕ) → has_easy (w.multis m) easy ≡ true → ⊥

  attach-Linked :
      (self easy : ℕ) (w : World L) → Linked w → Unheld w easy → Linked (attach self easy w)
  unfolding has_easy
  attach-Linked self easy w linked unheld =
      let e = w.easies easy in
      let e' = record e {
        multi_attachment_generation = e.multi_attachment_generation + 1;
        multi = some self;
      } in
      let w' = set_easy w easy e' in
      let linked' = set_easy-Linked w easy e' linked (λ m h. absurd (unheld m h)) in
      set_multi-Linked w' self _ linked'
        (elim (Bool-cases (has_key (keys_of (w.multis self).attached) easy)) [
          | inl t ↦ absurd (unheld self t)
          | inr f ↦ (f, linked.1 self)
        ])
        (λ k h. elim (Bool-cases (k == easy)) [
          | inl same ↦ rw same refl
          | inr other ↦ linked'.0 self k (ground arith)
        ])

  added-Linked :
      (self easy : ℕ) (w : World L) (code : Mcode)
      → Linked w
      → Unheld w easy
      → Linked (added self easy w code).0
  unfolding cleanup
  added-Linked self easy w mcode_ok linked unheld = attach-Linked self easy w linked unheld
  added-Linked self easy w call_multi_perform linked unheld =
      attach-Linked self easy w linked unheld
  added-Linked self easy w (mcode_error n) linked unheld =
      touch-Linked w easy (cleanup (w.easies easy)) linked refl

  set_up-Linked :
      (self easy : ℕ) (w : World L) (r : Easy × Result (Unit {0}))
      → Linked w
      → Unheld w easy
      → r.0.multi ≡ (w.easies easy).multi
      → Linked (set_up self easy w r).0
  set_up-Linked self easy w (e, raise x) linked unheld keeps = touch-Linked w easy e linked keeps
  set_up-Linked self easy w (e, ok u) linked unheld keeps =
      let r = L.add_handle w.lib (w.multis self).handle (set_at w.easies easy e easy).curl in
      added-Linked self easy (set_lib (set_easy w easy e) r.0) r.1
        (touch-Linked w easy e linked keeps) unheld

  -- What the guards of multi.add find out.
  guards-Unheld :
      (self easy : ℕ) (w : World L)
      → Linked w
      → has_easy (w.multis self) easy ≡ false
      → held_elsewhere (w.easies easy).multi self easy w ≡ false
      → Unheld w easy
  guards-Unheld self easy w linked here elsewhere m h =
      let back = linked.0 m easy h in
      elim (Bool-cases (m == self)) [ inl same ↦ ground arith | inr other ↦ ground arith ]

  add_ready-Linked :
      (setup : Easy → Easy × Result (Unit {0})) (self easy : ℕ) (r : World L × Result (Unit {0}))
      → Keeps setup
      → Linked r.0
      → Linked (add_ready setup self easy r).0
  add_ready-Linked setup self easy (w, raise x) keeps linked = linked
  add_ready-Linked setup self easy (w, ok u) keeps linked =
      elim (Bool-cases (has_easy (w.multis self) easy)) [
        | inl e ↦ rw e linked
        | inr e ↦ elim (Bool-cases (held_elsewhere (w.easies easy).multi self easy w)) [
          | inl o ↦ rw (e, o) linked
          | inr o ↦
              rw (e, o)
                (set_up-Linked self easy w (setup (w.easies easy)) linked
                  (guards-Unheld self easy w linked e o) (keeps (w.easies easy)))
        ]
      ]

  pub multi_add-Linked :
      (setup : Easy → Easy × Result (Unit {0})) (self easy : ℕ) (w : World L)
      → Keeps setup
      → Linked w
      → Linked (multi_add setup self easy w).0
  unfolding multi_add
  multi_add-Linked setup self easy w keeps linked =
      add_ready-Linked setup self easy (ensure_handle self w) keeps
        (ensure_handle-Linked self w linked)
