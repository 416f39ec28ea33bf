-- ===== src/Multi/Loop/Ends.antt =====
-- That running the transfers of a multi ends (ext/curb_multi.c).
use curb.Base.{
  ℕ, zero, suc, ◌-◌, ◌≤◌, ◌<◌, Option, none, some, ◌≡◌, refl, inl, inr, Option-cases, Bool-cases,
  arith, ◌⊎◌,
}
use curb.Base.Int.{ℤ}
use curb.Multi.{Mcode, call_multi_perform, mcode_ok, mcode_error, Libcurl, World}
use curb.Multi.Attach.{is_ok}
use curb.Multi.Loop.{
  Driver, Message, Select, ready, interrupted, failed, running_set, handle_message, read_info,
  multi_run, yield_if_given, run_round, selected, wait_fds, waited, turn, is_zero_ms, thousands,
  raise_if_idle,
}
use curb.Multi.Run.{Ends, and_run-Ends, Ends-imp}
use curb.Ruby.{Result, ok, raise, Value}

Mcode-cases :
    (c : Mcode) → (c ≡ mcode_ok) ⊎ ((c ≡ call_multi_perform) ⊎ ((n : ℕ) × (c ≡ mcode_error n)))
Mcode-cases mcode_ok = inl refl
Mcode-cases call_multi_perform = inr (inl refl)
Mcode-cases (mcode_error n) = inr (inr (n, refl))

module _ {L : Libcurl} where
  module _ (D : Driver L) (self : ℕ) (left : World L → ℕ) where
    -- `left` bounds the calls to come, the messages not read and the transfers that run. Reading a
    -- message and handling it takes from it, and the block adds no work. Closing ends what runs.
    pub record Tame : Type 0 where
      pub bounds : (w : World L) → (w.multis self).running ≤ left w
      pub reads :
          (w : World L) (message : Message)
          → (D.info_read self w).1 ≡ some message
          → left (handle_message D self message (D.info_read self w).0) < left w
      pub reads_none : (w : World L) → left (raise_if_idle D self (D.info_read self w).0).0 ≤ left w
      pub yields : (w : World L) → Ends (yield_if_given D self w) (λ u. left u ≤ left w)
      -- autoclose is a method of lib/curl/multi.rb that closes what is left
      pub closes :
          (w : World L) (v : Value)
          → (D.autoclose w).1 ≡ ok v
          → ((D.autoclose w).0.multis self).running ≡ 0
      pub switches : (w : World L) → left (D.scheduler_yield w) ≤ left w

    -- Transfers that need finitely many calls of libcurl: a call takes from what is left, and waiting
    -- adds no work.
    pub record Finite : Type 0 where
      pub tame : Tame
      pub performs :
          (w : World L) → let r = D.perform self w in left (running_set self r.2 r.0) ≤ left w - 1
      pub calls_again :
          (w : World L)
          → let r = D.perform self w in
            r.1 ≡ call_multi_perform → left (running_set self r.2 r.0) < left w
      pub selects : (maxfd : ℕ) (us : ℤ) (w : World L) → left (D.select maxfd us w).0 ≤ left w
      pub sleeps : (w : World L) → left (D.sleep w) ≤ left w

    idle-Ends :
        (r : World L × Result (Unit {0})) (n : ℕ) → left r.0 ≤ n → Ends (some r) (λ u. left u ≤ n)
    idle-Ends (w, ok u) n less = less
    idle-Ends (w, raise x) n less = tt

    module _ (T : Tame) where
      pub read_info-Ends :
          (fuel : ℕ) (w : World L)
          → left w < fuel
          → Ends (read_info D self fuel w) (λ u. left u ≤ left w)
      unfolding read_info
      read_info-Ends zero w enough = absurd (omega arith)
      read_info-Ends (suc fuel) w enough = elim (Option-cases (D.info_read self w).1) [
        | inl e ↦
            rw (e, read_info)
              (idle-Ends (raise_if_idle D self (D.info_read self w).0) (left w) (T.reads_none w))
        | inr (message, e) ↦
            let u = handle_message D self message (D.info_read self w).0 in
            let less = T.reads w message e in
            rw (e, read_info)
              (Ends-imp (λ v. left v ≤ left u) (λ v. left v ≤ left w) (read_info D self fuel u)
                (read_info-Ends fuel u (omega arith)) (λ v h. omega arith))
      ]

    module _ (F : Finite) where
      multi_run-Ends :
          (fuel : ℕ) (w : World L)
          → left w < fuel
          → Ends (multi_run D self fuel w) (λ u. left u ≤ left w - 1)
      unfolding multi_run
      multi_run-Ends zero w enough = absurd (omega arith)
      multi_run-Ends (suc fuel) w enough = elim (Mcode-cases (D.perform self w).1) [
        | inl e ↦ rw (e, multi_run) (F.performs w)
        | inr (inl e) ↦
            let r = D.perform self w in
            let u = running_set self r.2 r.0 in
            let less = F.calls_again w e in
            rw (e, multi_run)
              (Ends-imp (λ v. left v ≤ left u - 1) (λ v. left v ≤ left w - 1)
                (multi_run D self fuel u) (multi_run-Ends fuel u (omega arith))
                (λ v h. omega arith))
        | inr (inr (n, e)) ↦ rw (e, multi_run) tt
      ]

      pub run_round-Ends :
          (fuel : ℕ) (w : World L)
          → left w < fuel
          → Ends (run_round D self fuel w) (λ u. left u ≤ left w - 1)
      unfolding run_round
      run_round-Ends fuel w enough =
          and_run-Ends _ _ (multi_run D self fuel w) _ (multi_run-Ends fuel w enough) λ u first.
            and_run-Ends _ _ (read_info D self fuel u) _
              (read_info-Ends F.tame fuel u (omega arith))
              λ v second.
                Ends-imp _ _ (yield_if_given D self v) (F.tame.yields v) (λ x third. omega arith)

      selected-Ends :
          (fuel n : ℕ) (r : World L × Select)
          → left r.0 ≤ n
          → n < fuel
          → Ends (selected D self fuel r) (λ u. left u ≤ n - 1)
      selected-Ends fuel n (w, ready k) less enough =
          Ends-imp _ _ (run_round D self fuel w) (run_round-Ends fuel w (omega arith))
            (λ u h. omega arith)
      selected-Ends fuel n (w, interrupted) less enough =
          Ends-imp _ _ (run_round D self fuel w) (run_round-Ends fuel w (omega arith))
            (λ u h. omega arith)
      selected-Ends fuel n (w, failed) less enough = tt

      wait_fds-Ends :
          (fuel : ℕ) (ms : ℤ) (w : World L) (maxfd : Option ℕ)
          → left w < fuel
          → Ends (wait_fds D self fuel ms w maxfd) (λ u. left u ≤ left w - 1)
      wait_fds-Ends fuel ms w none enough =
          let less = F.sleeps w in
          Ends-imp _ _ (run_round D self fuel (D.sleep w))
            (run_round-Ends fuel (D.sleep w) (omega arith)) (λ u h. omega arith)
      wait_fds-Ends fuel ms w (some maxfd) enough =
          selected-Ends fuel (left w) (D.select maxfd (thousands ms) w)
            (F.selects maxfd (thousands ms) w) enough

      -- One pass of the inner loop uses up work.
      pub turn-Ends :
          (fuel : ℕ) (w : World L)
          → left w < fuel
          → Ends (turn D self fuel w) (λ u. left u ≤ left w - 1)
      unfolding turn
      turn-Ends fuel w enough = elim (Bool-cases (is_ok (D.timeout self w).0)) [
        | inr bad ↦ rw (bad, turn) tt
        | inl fine ↦ elim (Bool-cases (is_zero_ms (D.timeout self w).1)) [
          | inl now ↦
              rw (fine, now, turn)
                (and_run-Ends _ _ (run_round D self fuel w) _ (run_round-Ends fuel w enough)
                  (λ u h. let less = F.tame.switches u in omega arith))
          | inr later ↦
              rw (fine, later, turn)
                (elim (Bool-cases (is_ok (D.fdset self w).0)) [
                  | inl good ↦ rw (good, waited) (wait_fds-Ends fuel _ w (D.fdset self w).1 enough)
                  | inr wrong ↦ rw (wrong, waited) tt
                ])
        ]
      ]
