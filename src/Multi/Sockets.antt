-- ===== src/Multi/Sockets.antt =====
-- The socket and timer callbacks of ext/curb_multi.c, and the masks between libcurl's poll actions,
-- Ruby's wait events and libcurl's select flags. The constants of libcurl and Ruby stand by their
-- numbers: CURL_POLL_IN 1, OUT 2, INOUT 3, REMOVE 4; RB_WAITFD_IN 1, PRI 2, OUT 4; CURL_CSELECT_IN 1,
-- OUT 2, ERR 4.
pub mod Tracking
pub mod Wait
pub mod Drive
pub mod Pass
pub mod Turn
pub mod Perform
pub mod Ends
pub mod Unhooked
pub mod Keeps
use curb.Base.{
  ℕ, ◌+◌, ◌-◌, Bool, true, false, ◌||◌, not, ◌&&◌, Option, none, some, List, [], ◌∷◌, ◌==◌, bit_and,
  if◌then◌else◌, leb,
}
use curb.Base.Int.{ℤ, pos, negsuc}

-- multi_socket_ctx: the map from descriptors to actions, the deadline (-1 is `none`), and the
-- descriptors whose IO objects are kept, where they are kept at all.
pub record SocketCtx : Type 0 where
  pub sock_map : List (ℕ × ℕ)
  pub timeout_deadline_ms : Option ℕ
  pub io_cache : Option (List ℕ)

unfoldable pub wait_events_for_curl_poll : ℕ → ℕ
wait_events_for_curl_poll what =
    if what == 1 then 1 else if what == 2 then 4 else if what == 3 then 5 else 5

-- The flags are distinct bits, so `|=` adds them.
unfoldable pub cselect_flags_for_curl_poll : ℕ → ℕ
cselect_flags_for_curl_poll what =
    let flags =
      (if what == 1 || what == 3 then 1 else 0) + (if what == 2 || what == 3 then 2 else 0) in
    if flags == 0 then 3 else flags

unfoldable pub cselect_flags_for_wait_events : ℕ → ℕ
cselect_flags_for_wait_events events =
    (if bit_and events 1 == 0 then 0 else 1)
    + (if bit_and events 4 == 0 then 0 else 2)
    + (if bit_and events 2 == 0 then 0 else 4)

abbrev pub lookup : List (ℕ × ℕ) → ℕ → Option ℕ
lookup [] key = none
lookup ((k, v) ∷ rest) key = if k == key then some v else lookup rest key

abbrev pub delete_entry : List (ℕ × ℕ) → ℕ → List (ℕ × ℕ)
delete_entry [] key = []
delete_entry ((k, v) ∷ rest) key =
    let rest' = delete_entry rest key in if k == key then rest' else (k, v) ∷ rest'

-- A new key goes last, an old one keeps its place.
abbrev pub insert_entry : List (ℕ × ℕ) → ℕ → ℕ → List (ℕ × ℕ)
insert_entry [] key value = (key, value) ∷ []
insert_entry ((k, v) ∷ rest) key value =
    let rest' = insert_entry rest key value in
    if k == key then (k, value) ∷ rest else (k, v) ∷ rest'

abbrev pub delete_fd : List ℕ → ℕ → List ℕ
delete_fd [] fd = []
delete_fd (k ∷ ks) fd = let rest = delete_fd ks fd in if k == fd then rest else k ∷ rest

abbrev pub forget_io : Option (List ℕ) → ℕ → Option (List ℕ)
forget_io none fd = none
forget_io (some fds) fd = some (delete_fd fds fd)

unfoldable pub socket_forget_fd : SocketCtx → ℕ → SocketCtx
socket_forget_fd ctx fd = record ctx {
  sock_map = delete_entry ctx.sock_map fd;
  io_cache = forget_io ctx.io_cache fd;
}

-- The IO object goes when the action on its descriptor changes.
abbrev pub changed_io : Option ℕ → Option (List ℕ) → ℕ → ℕ → Option (List ℕ)
changed_io none cache fd what = cache
changed_io (some old) cache fd what = if old == what then cache else forget_io cache fd

unfoldable pub multi_socket_cb : ℤ → ℕ → SocketCtx → SocketCtx
multi_socket_cb (negsuc n) what ctx = ctx
multi_socket_cb (pos fd) what ctx = if what == 4 then socket_forget_fd ctx fd else record ctx {
  sock_map = insert_entry ctx.sock_map fd what;
  io_cache = changed_io (lookup ctx.sock_map fd) ctx.io_cache fd what;
}

-- `now` is the current time in milliseconds.
unfoldable pub multi_timer_cb : ℕ → ℤ → SocketCtx → SocketCtx
multi_timer_cb now (negsuc n) ctx = record ctx { timeout_deadline_ms = none }
multi_timer_cb now (pos timeout_ms) ctx = record ctx {
  timeout_deadline_ms = some (now + timeout_ms);
}

unfoldable pub multi_socket_timer_due : ℕ → SocketCtx → Bool
multi_socket_timer_due now ctx = elim ctx.timeout_deadline_ms [
  | none ↦ false
  | some deadline ↦ leb deadline now
]
