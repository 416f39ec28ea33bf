-- ===== src/Examples/Multi.antt =====
-- The theorems of the multi at concrete inputs (ext/curb_multi.c).
use curb.Base.{ℕ, suc, ◌≡◌, refl, ◌⊎◌, true, none, some, List, [], ◌∷◌, length}
use curb.Base.Int.{ℤ, pos}
use curb.Examples.State.{fresh, easygoing, two_held, world}
use curb.Easy.{Easy}
use curb.Multi.{World, keys_of, has_easy}
use curb.Multi.Attach.{ensure_handle, multi_add, easy_free, multi_close}
use curb.Multi.Counting.{Books, opened, entered, add, take_off, Books-Counted}
use curb.Multi.Active.{Counted, easy_free-Counted}
use curb.Multi.Close.{Busy, Closed, multi_close-Closed}
use curb.Multi.Complete.{Info, run_completion_callbacks, taken_off}
use curb.Multi.Callbacks.{run-own}
use curb.Multi.Deferred.{stash_all, raise_multi_deferred_exception_if_idle, raise-stash_all}
use curb.Multi.Sockets.{SocketCtx, lookup}
use curb.Multi.Sockets.Tracking.{socket_calls, in_force, socket_calls-in_force}
use curb.Ruby.{raised_by_user, runtime_error, Result, ok, raise, Value}

abbrev no_setup : Easy → Easy × Result (Unit {0})
no_setup e = (e, ok tt)

-- The easy 5 is added, and 4 taken off.
abbrev with_five : World easygoing
with_five = (multi_add no_setup 0 5 world).0

abbrev two_entries : Books 0 world (taken_off 0 4 with_five)
unfolding multi_add ensure_handle has_easy
two_entries = entered (entered opened (add no_setup 5 world)) (take_off 4 with_five refl)

Books-Counted_example : Counted ((taken_off 0 4 with_five).multis 0)
Books-Counted_example = Books-Counted 0 world two_entries refl

easy_free-Counted_example :
    ((easy_free 4 world).multis 0).active
    ≡ suc (length (keys_of ((easy_free 4 world).multis 0).attached))
unfolding has_easy
easy_free-Counted_example = easy_free-Counted 0 4 world refl refl refl

multi_close-Closed_example :
    (Busy (world.multis 0) × (multi_close 0 world ≡ (world, raise runtime_error)))
    ⊎ (¬ (Busy (world.multis 0))
        × ((multi_close 0 world).1 ≡ ok tt)
        × Closed ((multi_close 0 world).0.multis 0)
        × ((i : ℕ)
            → has_easy (world.multis 0) i ≡ true
            → ((multi_close 0 world).0.easies i).multi ≡ none))
multi_close-Closed_example = multi_close-Closed 0 world

abbrev nothing : ℕ → ℕ → World easygoing → World easygoing × Result Value
nothing proc easy w = (w, raise (raised_by_user 2))

abbrev found : World easygoing → Info
found w = record { response_code = 404; redirect_count = 0 }

abbrev failed_world : World easygoing
failed_world = record world {
  easies = λ i. record fresh { callback_error = some (raised_by_user 1) };
}

run-own_example :
    (run_completion_callbacks nothing found 0 4 0 [] failed_world).1 ≡ raise (raised_by_user 1)
run-own_example = run-own nothing found 0 4 0 [] failed_world (raised_by_user 1) refl

raise-stash_all_example :
    (raise_multi_deferred_exception_if_idle
      (stash_all ((raised_by_user 1, 3) ∷ (raised_by_user 2, 4) ∷ []) two_held)).1
    ≡ ok tt
raise-stash_all_example =
    raise-stash_all (raised_by_user 1) 3 ((raised_by_user 2, 4) ∷ []) two_held refl

abbrev empty_ctx : SocketCtx
empty_ctx = record { sock_map = []; timeout_deadline_ms = none; io_cache = none }

abbrev calls : List (ℤ × ℕ)
calls = (pos 5, 1) ∷ (pos 6, 2) ∷ (pos 5, 4) ∷ (pos 6, 3) ∷ []

socket_calls-in_force_example : lookup (socket_calls calls empty_ctx).sock_map 6 ≡ some 3
unfolding in_force
socket_calls-in_force_example = socket_calls-in_force calls empty_ctx 6
