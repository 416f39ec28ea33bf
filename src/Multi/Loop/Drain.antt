-- ===== src/Multi/Loop/Drain.antt =====
-- That performing a multi ends with no transfer running (ext/curb_multi.c).
use curb.Base.{
  ℕ, ap, zero, suc, ◌+◌, ◌≤◌, ◌<◌, ◌==◌, true, false, some, ◌≡◌, refl, ◌∙◌, inl, inr, Bool-cases,
  arith,
}
use curb.Multi.{Multi, Libcurl, World}
use curb.Multi.Active.{set_at-same}
use curb.Multi.Attach.{ensure_handle}
use curb.Multi.Loop.{
  Driver, read_info, yield_if_given, run_round, turn, while_running, drain, autoclosed,
  autoclose_if_enabled, allow_close, source_cleared, perform_impl,
}
use curb.Multi.Loop.Ends.{Tame, Finite, read_info-Ends, run_round-Ends, turn-Ends}
use curb.Multi.Run.{weight, weight-lighter, weight-light, and_run, Ends, Ends-imp, and_run-Ends}
use curb.Ruby.{Result, ok, raise, Value}

module _ {L : Libcurl} (D : Driver L) (self : ℕ) (left : World L → ℕ) (T : Tame D self left) where
  closed-Ends :
      (r : World L × Result Value)
      → ((v : Value) → r.1 ≡ ok v → (r.0.multis self).running ≡ 0)
      → Ends (autoclosed D self r) (λ u. (u.multis self).running ≡ 0)
  closed-Ends (w, ok v) closes =
      let m = record (w.multis self) { allow_close_during_perform = false } in
      ap (λ (o : Multi). o.running) (set_at-same w.multis self m) ∙ closes v refl
  closed-Ends (w, raise x) closes = tt

  pub autoclose-Ends :
      (w : World L)
      → (w.multis self).running ≡ 0
      → Ends (autoclose_if_enabled D self w) (λ u. (u.multis self).running ≡ 0)
  unfolding autoclose_if_enabled
  autoclose-Ends w still = elim (Bool-cases (D.autoclose_enabled w)) [
    | inl e ↦
        rw (e, autoclose_if_enabled)
          (closed-Ends (D.autoclose (allow_close D self true w))
            (T.closes (allow_close D self true w)))
    | inr e ↦ rw (e, autoclose_if_enabled) still
  ]

module _ {L : Libcurl} (D : Driver L) (self : ℕ) (left : World L → ℕ) (F : Finite D self left) where
  abbrev running : World L → ℕ
  running w = (w.multis self).running

  while_running-Ends :
      (fuel rounds : ℕ) (w : World L)
      → left w < fuel
      → left w < rounds
      → Ends
          (while_running D self fuel rounds w)
          (λ u. (left u ≤ left w) × (0 < running w → left u < left w))
  unfolding while_running
  while_running-Ends fuel zero w enough rest = absurd (omega arith)
  while_running-Ends fuel (suc rounds) w enough rest = elim (Bool-cases (running w == 0)) [
    | inl e ↦ rw (e, while_running) (omega arith, λ busy. ground arith)
    | inr e ↦
        rw (e, while_running)
          (and_run-Ends _ _ (turn D self fuel w) _ (turn-Ends D self left F fuel w enough) λ u h.
            let some_left = F.tame.bounds w in
            let less : left u < left w = ground arith in
            Ends-imp _ _ (while_running D self fuel rounds u)
              (while_running-Ends fuel rounds u (omega arith) (omega arith))
              (λ v k. (omega (arith, k.0), λ busy. omega (arith, k.0))))
  ]

  drain-Ends :
      (fuel times : ℕ) (w : World L)
      → left w < fuel
      → weight (left w) (running w) < times
      → Ends (drain D self fuel times w) (λ u. running u ≡ 0)
  unfolding drain
  drain-Ends fuel zero w enough rest = absurd (omega arith)
  drain-Ends fuel (suc times) w enough rest =
      and_run-Ends _ _ (while_running D self fuel fuel w) _
        (while_running-Ends fuel fuel w enough enough)
        λ u h.
          and_run-Ends _ _ (read_info D self fuel u) _
            (read_info-Ends D self left F.tame fuel u (omega (arith, h.0)))
            λ v k. and_run-Ends _ _ (yield_if_given D self v) _ (F.tame.yields v) λ x l.
              elim (Bool-cases (running x == 0)) [
                | inl e ↦ rw e (ground arith)
                | inr e ↦ rw e (
                    drain-Ends fuel times x (omega (arith, h.0, k, l)) (
                      weight-lighter (left w) (running w) (left u) (left x) (running x) times h
                        (omega (arith, k, l)) rest e))
              ]

  started-Ends :
      (fuel : ℕ) (r : World L × Result (Unit {0}))
      → left (source_cleared D self r.0) + 1 < fuel
      → Ends
          (and_run (some r) λ w.
            and_run
              (run_round D self fuel (source_cleared D self w))
              λ w. and_run (drain D self fuel fuel w) (autoclose_if_enabled D self))
          (λ u. running u ≡ 0)
  started-Ends fuel (w, raise x) enough = tt
  started-Ends fuel (w, ok u) enough =
      let w' = source_cleared D self w in
      and_run-Ends _ _ (run_round D self fuel w') _
        (run_round-Ends D self left F fuel w' (omega arith))
        λ v h.
          and_run-Ends _ _ (drain D self fuel fuel v) _
            (drain-Ends fuel fuel v (omega (arith, h))
              (weight-light (left v) (running v) fuel (left w') h enough))
            (autoclose-Ends D self left F.tame)

  -- If the transfers need finitely many calls of libcurl, the block and the procs add no work, and an
  -- autoclose that does not raise leaves nothing running, then the select loop comes to its end: each of
  -- its loops has enough fuel, two more than the calls to come once the handle is there, and where
  -- nothing is raised no transfer runs at the end.
  pub perform_impl-Ends :
      (fuel : ℕ) (w : World L)
      → left (source_cleared D self (ensure_handle self w).0) + 1 < fuel
      → Ends (perform_impl D self fuel w) (λ u. (u.multis self).running ≡ 0)
  unfolding perform_impl
  perform_impl-Ends fuel w enough = started-Ends fuel (ensure_handle self w) enough
