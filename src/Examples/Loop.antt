-- ===== src/Examples/Loop.antt =====
-- The theorems on sequences of operations and on the loop of a multi at concrete inputs
-- (ext/curb_multi.c).
use curb.Base.{ℕ, ◌+◌, ◌-◌, ◌<◌, ◌==◌, ◌≡◌, refl, true, none, some, if◌then◌else◌, arith}
use curb.Base.Int.{pos}
use curb.Easy.{Easy}
use curb.Examples.Setup.{strings, old_whole}
use curb.Examples.State.{easygoing, two_held, world, toy_pton}
use curb.Multi.{World, mcode_ok, has_easy, set_multi, set_lib}
use curb.Multi.Attach.{multi_add, easy_multi_set}
use curb.Multi.Deferred.{
  raise_multi_deferred_exception_if_idle, clear_multi_deferred_exception_if_any,
}
use curb.Multi.Linked.{Linked}
use curb.Multi.Loop.{Driver, Message, other_message, ready, handle_message, yield_if_given}
use curb.Multi.Loop.Ends.{Tame, Finite}
use curb.Multi.Reach.{Reach, here, next, add, assign, Reach-Linked}
use curb.Ruby.{Result, ok, nil}
use curb.Setup.Whole.{setup_easy, setup_easy-multi}

-- The setup of an added easy.
abbrev set_up : Easy → Easy × Result (Unit {0})
set_up = setup_easy toy_pton strings old_whole

-- No multi has a table yet; the easy 5 is added to one, and taken to another.
abbrev bare : World easygoing
bare = record world { multis = λ i. record two_held { attached = none; active = 0 } }

abbrev with_five : World easygoing
with_five = (multi_add set_up 0 5 bare).0

abbrev moved : World easygoing
moved = (easy_multi_set 5 (some 1) with_five).0

abbrev two_steps : Reach bare moved
two_steps =
    next (next here (add set_up 0 5 bare (setup_easy-multi toy_pton strings old_whole)))
      (assign 5 (some 1) with_five)

Reach-Linked_example :
    Linked moved
    × ((m n k : ℕ)
        → has_easy (moved.multis m) k ≡ true
        → has_easy (moved.multis n) k ≡ true
        → m ≡ n)
Reach-Linked_example = Reach-Linked bare moved (λ m. refl) two_steps

-- Each call of libcurl ends one transfer, the messages are of no interest, and there is a block.
abbrev pub told : World easygoing → ℕ
told w = if (w.multis 0).running == 0 then w.lib - 1 else w.lib

abbrev pub driver : Driver easygoing
driver = record {
  perform = λ m w. (set_lib w (told w), mcode_ok, (w.multis 0).running - 1);
  timeout = λ m w. (mcode_ok, pos 40);
  fdset = λ m w. (mcode_ok, some 5);
  info_read = λ m w. if w.lib == 0 then (w, none) else (set_lib w (w.lib - 1), some other_message);
  select = λ maxfd us w. (w, ready 1);
  sleep = λ w. w;
  scheduler_yield = λ w. w;
  call = λ proc easy w. (w, ok nil);
  info = λ w. record { response_code = 200; redirect_count = 0 };
  block = some (λ w. (w, ok nil));
  autoclose = λ w. (set_multi w 0 (record (w.multis 0) { running = 0 }), ok nil);
  default_timeout = λ w. pos 100;
  autoclose_enabled = λ w. true;
}

abbrev pub to_come : World easygoing → ℕ
to_come w = (w.multis 0).running + w.lib

reads_less :
    (w : World easygoing) (message : Message)
    → (driver.info_read 0 w).1 ≡ some message
    → to_come (handle_message driver 0 message (driver.info_read 0 w).0) < to_come w
unfolding handle_message
reads_less w message e = ground arith

pub driver-Tame : Tame driver 0 to_come
unfolding yield_if_given raise_multi_deferred_exception_if_idle
    clear_multi_deferred_exception_if_any
driver-Tame = record {
  bounds = λ w. omega arith;
  reads = reads_less;
  reads_none = λ w. ground arith;
  yields = λ w. omega arith;
  closes = λ w v e. refl;
  switches = λ w. omega arith;
}

pub driver-Finite : Finite driver 0 to_come
driver-Finite = record {
  tame = driver-Tame;
  performs = λ w. ground arith;
  calls_again = λ w e. cc;
  selects = λ maxfd us w. omega arith;
  sleeps = λ w. omega arith;
}
