-- ===== src/Multi/Sockets/Unhooked.antt =====
-- That libcurl's handle does not point to the context of a perform that is over (ext/curb_multi.c).
use curb.Base.{ℕ, none, some, ◌≡◌, refl, inl, inr, Option-cases, ◌⊎◌}
use curb.Multi.{Libcurl, World}
use curb.Multi.Attach.{ensure_handle}
use curb.Multi.Loop.{source_cleared, autoclose_if_enabled}
use curb.Multi.Run.{Run, and_run, Leaves}
use curb.Multi.Sockets.Drive.{SocketDriver, Driving}
use curb.Multi.Sockets.Perform.{
  Hooks, installed, no_hooks, new_context, socket_drive, socket_drive_ensure, ensured, with_hooks,
  socket_perform_impl,
}
use curb.Ruby.{ok, raise}

module _ {L : Libcurl} (D : SocketDriver L) (self : ℕ) where
  abbrev pub HandleGone : Run (Driving L) → Type 0
  HandleGone none = ⊥
  HandleGone (some (s, r)) = (s.0.multis self).handle ≡ none

  -- The loop of a perform, from its start.
  abbrev pub driven : ℕ → World L → Run (Driving L)
  driven fuel w =
      socket_drive D self fuel fuel
        (source_cleared D.driver self (ensure_handle self w).0, new_context)

  abbrev pub Unhooked : Run (Driving L) → World L × Hooks → Type 0
  Unhooked drive t = (t.1 ≡ no_hooks) ⊎ HandleGone drive

  ensure-Unhooked :
      (w : World L)
      → (socket_drive_ensure D self w installed ≡ no_hooks) ⊎ ((w.multis self).handle ≡ none)
  unfolding socket_drive_ensure
  ensure-Unhooked w = elim (Option-cases (w.multis self).handle) [
    | inl e ↦ inr e
    | inr (handle, e) ↦ inl (rw (e, socket_drive_ensure) refl)
  ]

  with_hooks-Leaves :
      (drive : Run (Driving L)) (hooks : Hooks) (run : Run (World L))
      → (hooks ≡ no_hooks) ⊎ HandleGone drive
      → Leaves (Unhooked drive) (with_hooks D self hooks run)
  with_hooks-Leaves drive hooks none unhooked = tt
  with_hooks-Leaves drive hooks (some (w, r)) unhooked = unhooked

  ensured-Leaves :
      (drive : Run (Driving L))
      → Leaves (Unhooked drive) (
          and_run
            (ensured D self drive)
            λ s. with_hooks D self s.1 (autoclose_if_enabled D.driver self s.0))
  ensured-Leaves none = tt
  ensured-Leaves (some ((w, ctx), raise x)) = ensure-Unhooked w
  ensured-Leaves (some ((w, ctx), ok u)) =
      with_hooks-Leaves (some ((w, ctx), ok u)) (socket_drive_ensure D self w installed)
        (autoclose_if_enabled D.driver self w) (ensure-Unhooked w)

  -- A perform by socket actions whose handle could be had leaves none of the four options for the
  -- callbacks set, whether its loop or its autoclose raised or not, unless libcurl's handle itself was
  -- gone when the loop ended.
  pub socket_perform_impl-Unhooked :
      (fuel : ℕ) (w : World L) (hooks : Hooks)
      → (ensure_handle self w).1 ≡ ok tt
      → Leaves (Unhooked (driven fuel w)) (socket_perform_impl D self fuel (w, hooks))
  unfolding socket_perform_impl
  socket_perform_impl-Unhooked fuel w hooks had =
      rw (had, socket_perform_impl) (ensured-Leaves (driven fuel w))
