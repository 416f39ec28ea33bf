-- ===== src/Multi/Active.antt =====
-- The count `active` of ext/curb_multi.c against the table of attached easies.
use curb.Base.{
  ℕ, suc, ◌≡◌, refl, sym, ◌∙◌, ap, subst, inl, inr, true, false, ◌&&◌, some, List, [], ◌∷◌, ◌==◌,
  ==_refl, length, arith, Bool-cases, Option-cases, is_some,
}
use curb.Easy.{Easy}
use curb.Multi.{
  Multi, Mcode, call_multi_perform, mcode_ok, mcode_error, Libcurl, World, set_easy, set_lib,
  set_at, has_key, delete_key, keys_of, has_easy, forget_easy,
}
use curb.Multi.Attach.{
  is_ok, ensure_handle, multi_init, multi_add, add_ready, set_up, added, held_elsewhere,
  multi_remove, detach_easy, detached_count, easy_free, initialised,
}
use curb.Multi.Complete.{taken_off}
use curb.Ruby.{Result, ok, raise}

-- As many transfers are counted as there are easies in the table.
abbrev pub Counted : Multi → Type 0
Counted m = m.active ≡ length (keys_of m.attached)

pub set_at-same {ℓ} : {A : Type ℓ} (f : ℕ → A) (i : ℕ) (a : A) → set_at f i a i ≡ a
set_at-same f i a = rw (==_refl i) refl

set_at-Counted : (f : ℕ → Multi) (i : ℕ) (m : Multi) → Counted m → Counted (set_at f i m i)
set_at-Counted f i m h = subst Counted (sym (set_at-same f i m)) h

length-delete_key :
    (keys : List ℕ) (key : ℕ)
    → has_key keys key ≡ true
    → suc (length (delete_key keys key)) ≡ length keys
length-delete_key [] key h = cc
length-delete_key (k ∷ ks) key h = elim (Bool-cases (k == key)) [
  | inl e ↦ rw e refl
  | inr e ↦ rw e (ap suc (length-delete_key ks key (ground arith)))
]

length-forget :
    (m : Multi) (easy : ℕ)
    → has_easy m easy ≡ true
    → suc (length (keys_of (forget_easy m easy).attached)) ≡ length (keys_of m.attached)
unfolding has_easy forget_easy
length-forget m easy h = elim (Option-cases m.attached) [
  | inl e ↦ absurd (ground arith)
  | inr (keys, e) ↦ rw e (length-delete_key keys easy (ground arith))
]

forgotten-Counted :
    (m : Multi) (easy : ℕ)
    → Counted m
    → has_easy m easy ≡ true
    → Counted (detached_count (forget_easy m easy))
unfolding forget_easy
forgotten-Counted m easy h held = omega (arith, length-forget m easy held)

not_ok : (c : Mcode) → is_ok c ≡ false → c ≡ mcode_ok → ⊥
not_ok mcode_ok h e = cc
not_ok call_multi_perform h e = absurd (ground arith)
not_ok (mcode_error n) h e = absurd (ground arith)

module _ {L : Libcurl} where
  multi_init-Counted :
      (self : ℕ) (w : World L)
      → Counted (w.multis self)
      → Counted ((multi_init self w).0.multis self)
  unfolding multi_init
  multi_init-Counted self w h = elim (Option-cases (L.multi_init w.lib).1) [
    | inl e ↦ rw (e, multi_init) h
    | inr (handle, e) ↦
        rw (e, multi_init) (set_at-Counted w.multis self (initialised (w.multis self) handle) refl)
  ]

  ensure_handle-Counted :
      (self : ℕ) (w : World L)
      → Counted (w.multis self)
      → Counted ((ensure_handle self w).0.multis self)
  unfolding ensure_handle
  ensure_handle-Counted self w h = elim (Option-cases (w.multis self).handle) [
    | inr (handle, e) ↦ rw (e, ensure_handle) h
    | inl e ↦ elim (Bool-cases (w.multis self).closed) [
      | inl c ↦ rw (e, c, ensure_handle) h
      | inr c ↦ rw (e, c, ensure_handle) (multi_init-Counted self w h)
    ]
  ]

  added-Counted :
      (self easy : ℕ) (w : World L) (code : Mcode)
      → Counted (w.multis self)
      → Counted ((added self easy w code).0.multis self)
  added-Counted self easy w mcode_ok h = set_at-Counted w.multis self _ (omega arith)
  added-Counted self easy w call_multi_perform h = set_at-Counted w.multis self _ (omega arith)
  added-Counted self easy w (mcode_error n) h = h

  set_up-Counted :
      (self easy : ℕ) (w : World L) (r : Easy × Result (Unit {0}))
      → Counted (w.multis self)
      → Counted ((set_up self easy w r).0.multis self)
  set_up-Counted self easy w (e, raise x) h = h
  set_up-Counted self easy w (e, ok u) h =
      let r = L.add_handle w.lib (w.multis self).handle (set_at w.easies easy e easy).curl in
      added-Counted self easy (set_lib (set_easy w easy e) r.0) r.1 h

  add_ready-Counted :
      (setup : Easy → Easy × Result (Unit {0})) (self easy : ℕ) (r : World L × Result (Unit {0}))
      → Counted (r.0.multis self)
      → Counted ((add_ready setup self easy r).0.multis self)
  add_ready-Counted setup self easy (w, raise x) h = h
  add_ready-Counted setup self easy (w, ok u) h =
      elim (Bool-cases (has_easy (w.multis self) easy)) [
        | inl e ↦ rw e h
        | inr e ↦ elim (Bool-cases (held_elsewhere (w.easies easy).multi self easy w)) [
          | inl o ↦ rw (e, o) h
          | inr o ↦ rw (e, o) (set_up-Counted self easy w (setup (w.easies easy)) h)
        ]
      ]

  -- If the count of a multi is right, adding an easy keeps it right, whether it succeeds, is refused, or fails in libcurl, and
  -- whatever the setup of the easy does.
  pub multi_add-Counted :
      (setup : Easy → Easy × Result (Unit {0})) (self easy : ℕ) (w : World L)
      → Counted (w.multis self)
      → Counted ((multi_add setup self easy w).0.multis self)
  unfolding multi_add
  multi_add-Counted setup self easy w h =
      add_ready-Counted setup self easy (ensure_handle self w) (ensure_handle-Counted self w h)

  detached-Counted :
      (self easy : ℕ) (w : World L)
      → Counted (w.multis self)
      → has_easy (w.multis self) easy ≡ true
      → Counted (set_at w.multis self (detached_count (forget_easy (w.multis self) easy)) self)
  detached-Counted self easy w h held =
      set_at-Counted w.multis self _ (forgotten-Counted (w.multis self) easy h held)

  -- If the count of a multi is right, detaching an easy, as easy.multi= does, keeps it right when the
  -- result is CURLM_OK.
  pub detach_easy-Counted :
      (self easy : ℕ) (w : World L)
      → Counted (w.multis self)
      → (detach_easy self easy w).1 ≡ mcode_ok
      → Counted ((detach_easy self easy w).0.multis self)
  unfolding detach_easy
  detach_easy-Counted self easy w h done = elim (Bool-cases (has_easy (w.multis self) easy)) [
    | inr e ↦ rw (e, detach_easy) h
    | inl e ↦
        elim (Bool-cases
          (is_some (forget_easy (w.multis self) easy).handle && is_some (w.easies easy).curl)) [
            | inr gone ↦ rw (e, gone, detach_easy) (detached-Counted self easy w h e)
            | inl live ↦
                elim (Bool-cases (
                  is_ok
                    (L.remove_handle w.lib (forget_easy (w.multis self) easy).handle
                      (w.easies easy).curl).1)) [
                        | inl fine ↦
                            rw (e, live, fine, detach_easy) (detached-Counted self easy w h e)
                        | inr bad ↦
                            absurd (not_ok _ bad (sym (rw (e, live, bad, detach_easy) refl) ∙ done))
                      ]
          ]
  ]

  -- If the count of a multi is right, removing an easy that its table holds keeps it right, whether libcurl lets the handle go
  -- or not.
  pub multi_remove-Counted :
      (self easy : ℕ) (w : World L)
      → Counted (w.multis self)
      → has_easy (w.multis self) easy ≡ true
      → Counted ((multi_remove self easy w).0.multis self)
  unfolding multi_remove forget_easy
  multi_remove-Counted self easy w h held =
      elim (Bool-cases
        (is_ok (L.remove_handle w.lib (w.multis self).handle (w.easies easy).curl).1)) [
          | inl fine ↦ rw (fine, multi_remove) (detached-Counted self easy w h held)
          | inr bad ↦ rw (bad, multi_remove) h
        ]

  -- If the count of a multi is right and it holds an easy that points to it, then freeing the easy,
  -- which easy.close does, leaves the count one above the size of the table.
  pub easy_free-Counted :
      (self easy : ℕ) (w : World L)
      → Counted (w.multis self)
      → has_easy (w.multis self) easy ≡ true
      → (w.easies easy).multi ≡ some self
      → ((easy_free easy w).multis self).active
        ≡ suc (length (keys_of ((easy_free easy w).multis self).attached))
  unfolding easy_free forget_easy
  easy_free-Counted self easy w h held here =
      rw (here, easy_free)
        (rw (set_at-same w.multis self (forget_easy (w.multis self) easy))
          (h ∙ sym (length-forget (w.multis self) easy held)))

  -- If the count of a multi is right, taking a finished easy off that its table holds keeps it right.
  pub taken_off-Counted :
      (self easy : ℕ) (w : World L)
      → Counted (w.multis self)
      → has_easy (w.multis self) easy ≡ true
      → Counted ((taken_off self easy w).multis self)
  unfolding forget_easy
  taken_off-Counted self easy w h held =
      set_at-Counted w.multis self _ (omega (arith, length-forget (w.multis self) easy held, h))
