-- ===== src/Multi/Sockets/Tracking.antt =====
-- What the socket map holds after any calls of libcurl's socket callback (ext/curb_multi.c), and the
-- agreement of the masks.
use curb.Base.{
  ℕ, ◌≡◌, refl, ◌∙◌, Bool, true, false, Option, none, some, List, [], ◌∷◌, ◌==◌, ==_iff, subst,
  if◌then◌else◌, inl, inr, Bool-cases, arith,
}
use curb.Base.Int.{ℤ, pos, negsuc}
use curb.Multi.Sockets.{
  SocketCtx, lookup, delete_entry, insert_entry, socket_forget_fd, multi_socket_cb,
  wait_events_for_curl_poll, cselect_flags_for_curl_poll, cselect_flags_for_wait_events,
}

-- Waiting for the events of an action, and all of them happening, gives libcurl the flags that it
-- asked for with the action.
cselect_flags-wait_events :
    (what : ℕ)
    → cselect_flags_for_wait_events (wait_events_for_curl_poll what)
      ≡ cselect_flags_for_curl_poll what
unfolding cselect_flags_for_wait_events wait_events_for_curl_poll cselect_flags_for_curl_poll
cselect_flags-wait_events what = ground arith

-- The callback, for calls in order.
unfoldable pub socket_calls : List (ℤ × ℕ) → SocketCtx → SocketCtx
socket_calls [] ctx = ctx
socket_calls ((s, what) ∷ calls) ctx = socket_calls calls (multi_socket_cb s what ctx)

-- The action that is in force on a descriptor: the last one given for it, but none after a removal.
abbrev pub changes : ℤ → ℕ → Bool
changes (pos s) fd = s == fd
changes (negsuc n) fd = false

unfoldable pub in_force : List (ℤ × ℕ) → ℕ → Option ℕ → Option ℕ
in_force [] fd now = now
in_force ((s, what) ∷ calls) fd now =
    in_force calls fd (if changes s fd then (if what == 4 then none else some what) else now)

lookup-delete_same : (m : List (ℕ × ℕ)) (key : ℕ) → lookup (delete_entry m key) key ≡ none
lookup-delete_same [] key = refl
lookup-delete_same ((k, v) ∷ rest) key = elim (Bool-cases (k == key)) [
  | inl e ↦ rw e (lookup-delete_same rest key)
  | inr e ↦ rw e (rw e (lookup-delete_same rest key))
]

lookup-delete_eq :
    (m : List (ℕ × ℕ)) (key other : ℕ)
    → (key == other) ≡ true
    → lookup (delete_entry m key) other ≡ none
lookup-delete_eq m key other h =
    subst (λ k. lookup (delete_entry m key) k ≡ none) ((==_iff key other).0 h)
      (lookup-delete_same m key)

lookup-delete_other :
    (m : List (ℕ × ℕ)) (key other : ℕ)
    → (key == other) ≡ false
    → lookup (delete_entry m key) other ≡ lookup m other
lookup-delete_other [] key other h = refl
lookup-delete_other ((k, v) ∷ rest) key other h =
    ground (arith, lookup-delete_other rest key other h)

lookup-insert :
    (m : List (ℕ × ℕ)) (key value other : ℕ)
    → lookup (insert_entry m key value) other
      ≡ (if key == other then some value else lookup m other)
lookup-insert [] key value other = refl
lookup-insert ((k, v) ∷ rest) key value other = ground (arith, lookup-insert rest key value other)

lookup-callback :
    (s : ℤ) (what : ℕ) (ctx : SocketCtx) (fd : ℕ)
    → lookup (multi_socket_cb s what ctx).sock_map fd
      ≡ (if changes s fd then (if what == 4 then none else some what) else lookup ctx.sock_map fd)
unfolding multi_socket_cb socket_forget_fd
lookup-callback (negsuc n) what ctx fd = refl
lookup-callback (pos s) what ctx fd = elim (Bool-cases (s == fd)) [
  | inl e ↦
      ground (arith, lookup-delete_eq ctx.sock_map s fd e, lookup-insert ctx.sock_map s what fd)
  | inr e ↦
      ground (arith, lookup-delete_other ctx.sock_map s fd e, lookup-insert ctx.sock_map s what fd)
]

-- After any calls, the map gives for each descriptor the action in force on it.
pub socket_calls-in_force :
    (calls : List (ℤ × ℕ)) (ctx : SocketCtx) (fd : ℕ)
    → lookup (socket_calls calls ctx).sock_map fd ≡ in_force calls fd (lookup ctx.sock_map fd)
unfolding socket_calls in_force
socket_calls-in_force [] ctx fd = refl
socket_calls-in_force ((s, what) ∷ calls) ctx fd =
    socket_calls-in_force calls (multi_socket_cb s what ctx) fd
    ∙ rw (lookup-callback s what ctx fd) refl
