-- ===== src/Multi/Perform.antt =====
-- The guard around every perform of ext/curb_multi.c: ruby_curl_multi_with_perform_guard. The loop
-- that it guards is an argument, which may change everything and may raise.
use curb.Base.{ℕ, ◌≡◌, refl, true, false, if◌then◌else◌, ◌⊎◌, inl, inr, Bool-cases, ==_refl}
use curb.Multi.{Multi, Libcurl, World, set_multi}
use curb.Ruby.{runtime_error, Result, raise, Value}

abbrev pub idle : Multi → Multi
idle m = record m {
  perform_active = false;
  callback_active = false;
  allow_close_during_perform = false;
}

module _ {L : Libcurl} where
  -- The ensure block
  unfoldable pub perform_guard_ensure : ℕ → World L → World L
  perform_guard_ensure self w = set_multi w self (idle (w.multis self))

  abbrev pub guarded_body : ℕ → World L × Result Value → World L × Result Value
  guarded_body self (w, r) = (perform_guard_ensure self w, r)

  unfoldable pub with_perform_guard :
      (World L → World L × Result Value) → ℕ → World L → World L × Result Value
  with_perform_guard body self w =
      if (w.multis self).perform_active
      then (w, raise runtime_error)
      else guarded_body self
          (body (set_multi w self (record (w.multis self) { perform_active = true })))

  -- A perform inside a perform raises and changes nothing. Any other runs its loop, whose result it
  -- gives, with the multi marked as performing, and afterwards, even if the loop raised, the multi is
  -- marked neither as performing nor as in a callback nor as open to being closed.
  with_perform_guard-idle :
      (body : World L → World L × Result Value) (self : ℕ) (w : World L)
      → let r = body (set_multi w self (record (w.multis self) { perform_active = true })) in
        (((w.multis self).perform_active ≡ true)
          × (with_perform_guard body self w ≡ (w, raise runtime_error)))
        ⊎ (((w.multis self).perform_active ≡ false)
            × ((with_perform_guard body self w).1 ≡ r.1)
            × ((with_perform_guard body self w).0.multis self ≡ idle (r.0.multis self)))
  unfolding with_perform_guard perform_guard_ensure
  with_perform_guard-idle body self w = elim (Bool-cases (w.multis self).perform_active) [
    | inl e ↦ inl (e, rw (e, with_perform_guard) refl)
    | inr e ↦
        inr (e, rw (e, with_perform_guard) refl, rw (e, with_perform_guard, ==_refl self) refl)
  ]
