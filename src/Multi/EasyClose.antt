-- ===== src/Multi/EasyClose.antt =====
-- easy.close of ext/curb_easy.c as a whole: the easy leaves its multi, and gets a new handle and its
-- first values.
use curb.Base.{
  ℕ, ◌≡◌, refl, inl, inr, Bool-cases, Option-cases, arith, Option, none, some, if◌then◌else◌,
  ==_refl,
}
use curb.Base.Int.{ℤ}
use curb.Easy.{Easy, zero}
use curb.Easy.Lifecycle.{busy, freed}
use curb.Multi.{Libcurl, World, set_easy}
use curb.Multi.Attach.{easy_free}
use curb.Multi.Linked.{Linked, set_easy-Linked}
use curb.Multi.Linked.Detach.{easy_free-Linked}
use curb.Ruby.{runtime_error, easy_init_error, Result, raise}

-- What curl_easy_init gives, the result of the options that are checked (CURLOPT_NOSIGNAL and
-- CURLOPT_PRIVATE), and two constants of libcurl.
pub record Opening : Type 0 where
  pub handle : Option ℕ
  pub options : Result (Unit {0})
  pub http_version_none : ℤ
  pub ipresolve_whatever : ℕ

abbrev pub reopened : Opening → ℕ → ℕ → Easy → Easy
reopened o handle self e =
    record (zero o.http_version_none o.ipresolve_whatever
      (record e { curl = some handle; multi = none })) { self = some self }

module _ {L : Libcurl} where
  abbrev pub opened : Opening → ℕ → World L → World L × Result (Unit {0})
  opened o easy w = elim o.handle [
    | none ↦ (w, raise easy_init_error)
    | some handle ↦ (set_easy w easy (reopened o handle easy (w.easies easy)), o.options)
  ]

  unfoldable pub easy_close : Opening → ℕ → World L → World L × Result (Unit {0})
  easy_close o easy w =
      if busy (w.easies easy) then (w, raise runtime_error) else opened o easy (easy_free easy w)

  easy_free-multi : (easy : ℕ) (w : World L) → ((easy_free easy w).easies easy).multi ≡ none
  unfolding easy_free freed
  easy_free-multi easy w = elim (Option-cases (w.easies easy).multi) [
    | inl e ↦ rw (e, easy_free, ==_refl easy) refl
    | inr (old, e) ↦ rw (e, easy_free, ==_refl easy) refl
  ]

  pub opened-Linked :
      (o : Opening) (easy : ℕ) (w : World L)
      → Linked w
      → (w.easies easy).multi ≡ none
      → Linked (opened o easy w).0
  unfolding zero
  opened-Linked o easy w linked loose = elim (Option-cases o.handle) [
    | inl e ↦ rw (e, opened) linked
    | inr (handle, e) ↦
        rw (e, opened)
          (set_easy-Linked w easy (reopened o handle easy (w.easies easy)) linked
            (λ m h. let back = linked.0 m easy h in absurd (ground arith)))
  ]

  pub easy_close-Linked :
      (o : Opening) (easy : ℕ) (w : World L) → Linked w → Linked (easy_close o easy w).0
  unfolding easy_close
  easy_close-Linked o easy w linked = elim (Bool-cases (busy (w.easies easy))) [
    | inl e ↦ rw (e, easy_close) linked
    | inr e ↦
        rw (e, easy_close)
          (opened-Linked o easy (easy_free easy w) (easy_free-Linked easy w linked)
            (easy_free-multi easy w))
  ]
