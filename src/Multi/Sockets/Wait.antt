-- ===== src/Multi/Sockets/Wait.antt =====
-- What the socket-action loop of ext/curb_multi.c makes of its map of sockets before and after it waits:
-- the time to wait, the sets of descriptors, and the ready ones.
use curb.Base.{
  ℕ, zero, suc, ◌+◌, ◌-◌, ◌*◌, ◌/◌, ◌%◌, ◌≤◌, ◌<◌, ◌==◌, ◌≡◌, refl, ltb, leb, bit_and, Bool, true,
  false, Option, none, some, List, [], ◌∷◌, if◌then◌else◌, any, length, arith, ap, ==_iff, ◌⊎◌, inl,
  inr, Bool-cases,
}
use curb.Base.Int.{ℤ, pos, negsuc}
use curb.Multi.Sockets.{SocketCtx, lookup, multi_socket_cb, multi_timer_cb}

-- A call that libcurl makes to the socket callback, or at some time to the timer callback.
pub data CtxCall : Type 0 where
  socket_call : (s : ℤ) → (what : ℕ) → CtxCall
  timer_call : (now : ℕ) → (timeout_ms : ℤ) → CtxCall

abbrev pub called : CtxCall → SocketCtx → SocketCtx
called (socket_call s what) ctx = multi_socket_cb s what ctx
called (timer_call now timeout_ms) ctx = multi_timer_cb now timeout_ms ctx

unfoldable pub all_called : List CtxCall → SocketCtx → SocketCtx
all_called [] ctx = ctx
all_called (call ∷ calls) ctx = all_called calls (called call ctx)

-- struct timeval
pub record Timeval : Type 0 where
  pub tv_sec : ℤ
  pub tv_usec : ℤ

abbrev pub no_time : Timeval
no_time = record { tv_sec = pos 0; tv_usec = pos 0 }

abbrev pub negated : ℕ → ℤ
negated zero = pos 0
negated (suc n) = negsuc n

-- Division in C goes towards zero.
unfoldable pub timeval : ℤ → Timeval
timeval (pos ms) = record { tv_sec = pos (ms / 1_000); tv_usec = pos (ms % 1_000 * 1_000) }
timeval (negsuc n) = record {
  tv_sec = negated (suc n / 1_000);
  tv_usec = negated (suc n % 1_000 * 1_000);
}

abbrev pub difference : ℕ → ℕ → ℤ
difference a b = if ltb a b then negsuc (b - a - 1) else pos (a - b)

abbrev pub less : ℤ → ℤ → Bool
less (pos m) (pos n) = ltb m n
less (pos m) (negsuc n) = false
less (negsuc m) (pos n) = true
less (negsuc m) (negsuc n) = ltb n m

abbrev pub at_least_zero : ℤ → ℤ
at_least_zero (pos n) = pos n
at_least_zero (negsuc n) = pos 0

-- The default, or the time until the deadline where that is less.
unfoldable pub wait_ms : (default_timeout : ℤ) → (now : ℕ) → (deadline : ℕ) → ℤ
wait_ms default_timeout now deadline =
    let remaining_ms = difference deadline now in
    if less remaining_ms default_timeout then at_least_zero remaining_ms else default_timeout

-- The three sets of descriptors, and the highest of them; -1 is `none`.
pub record FdSets : Type 0 where
  pub rfds : List ℕ
  pub wfds : List ℕ
  pub efds : List ℕ
  pub maxfd : Option ℕ

abbrev pub higher : ℕ → Option ℕ → Option ℕ
higher fd none = some fd
higher fd (some maxfd) = if ltb maxfd fd then some fd else some maxfd

-- rb_fdset_from_sockmap, entry by entry; a set is the list of what was put in, the last first.
unfoldable pub fdset_from : List (ℕ × ℕ) → FdSets → FdSets
fdset_from [] sets = sets
fdset_from ((fd, what) ∷ entries) sets = fdset_from entries (record {
  rfds = if bit_and what 1 == 0 then sets.rfds else fd ∷ sets.rfds;
  wfds = if bit_and what 2 == 0 then sets.wfds else fd ∷ sets.wfds;
  efds = fd ∷ sets.efds;
  maxfd = higher fd sets.maxfd;
})

abbrev pub fdset_from_sockmap : List (ℕ × ℕ) → FdSets
fdset_from_sockmap entries =
    fdset_from entries (record { rfds = []; wfds = []; efds = []; maxfd = none })

abbrev pub is_set : ℕ → List ℕ → Bool
is_set fd fds = any (λ k. k == fd) fds

-- CURL_CSELECT_IN, OUT and ERR are distinct bits.
unfoldable pub ready_flags : (readable writable exceptable : List ℕ) → ℕ → ℕ
ready_flags r w e fd =
    (if is_set fd r then 1 else 0) + (if is_set fd w then 2 else 0) + (if is_set fd e then 4 else 0)

-- collect_ready_fd_i and collect_io_select_ready_i: the entries with flags, as long as there is room.
unfoldable pub collect_ready : (flags : ℕ → ℕ) → (room : ℕ) → List (ℕ × ℕ) → List (ℕ × ℕ)
collect_ready flags room [] = []
collect_ready flags zero ((fd, what) ∷ entries) = collect_ready flags zero entries
collect_ready flags (suc room) ((fd, what) ∷ entries) = elim (flags fd == 0) [
  | true ↦ collect_ready flags (suc room) entries
  | false ↦ (fd, flags fd) ∷ collect_ready flags room entries
]

collect_ready-length :
    (flags : ℕ → ℕ) (room : ℕ) (entries : List (ℕ × ℕ))
    → length (collect_ready flags room entries) ≤ room
unfolding collect_ready
collect_ready-length flags room [] = omega arith
collect_ready-length flags zero ((fd, what) ∷ entries) = collect_ready-length flags zero entries
collect_ready-length flags (suc room) ((fd, what) ∷ entries) =
    ground (
      arith,
      collect_ready-length flags (suc room) entries,
      collect_ready-length flags room entries,
    )

-- The flags of a descriptor that is in the map and ready.
abbrev pub reported : ℕ → Option ℕ → Option ℕ
reported flags none = none
reported flags (some what) = if flags == 0 then none else some flags

collect_ready-reported :
    (flags : ℕ → ℕ) (room : ℕ) (entries : List (ℕ × ℕ)) (fd : ℕ)
    → length entries ≤ room
    → lookup (collect_ready flags room entries) fd ≡ reported (flags fd) (lookup entries fd)
unfolding collect_ready
collect_ready-reported flags room [] fd enough = refl
collect_ready-reported flags zero ((k, what) ∷ entries) fd enough = absurd (omega arith)
collect_ready-reported flags (suc room) ((k, what) ∷ entries) fd enough =
    let here : (k == fd) ≡ true → flags k ≡ flags fd = λ e. ap flags ((==_iff k fd).0 e) in
    ground (
      arith,
      here,
      collect_ready-reported flags (suc room) entries fd,
      collect_ready-reported flags room entries fd,
    )

-- No more ready descriptors are collected than there is room for, whatever the map is; and where there
-- is room for the whole map, a descriptor of the map that is ready is there with its flags, and no
-- other is.
collect_ready-lookup :
    (flags : ℕ → ℕ) (room : ℕ) (entries : List (ℕ × ℕ)) (fd : ℕ)
    → (length (collect_ready flags room entries) ≤ room)
      × ((lookup (collect_ready flags room entries) fd ≡ reported (flags fd) (lookup entries fd))
          ⊎ (room < length entries))
collect_ready-lookup flags room entries fd = (
  collect_ready-length flags room entries,
  elim (Bool-cases (leb (length entries) room)) [
    | inl e ↦ inl (collect_ready-reported flags room entries fd (ground arith))
    | inr e ↦ inr (ground arith)
  ],
)

-- With a default of zero or more, the loop waits the lesser of the default and the time until the
-- deadline, none if that has passed, to the millisecond, and the microseconds are fewer than a second.
wait_ms-Exact :
    (default_timeout now deadline : ℕ)
    → (s : ℕ) × (u : ℕ) × (timeval (wait_ms (pos default_timeout) now deadline)
        ≡ record { tv_sec = pos s; tv_usec = pos u })
      × (u < 1_000_000)
      × (s * 1_000_000 + u
          ≡ (if ltb (deadline - now) default_timeout then deadline - now else default_timeout)
            * 1_000)
unfolding wait_ms timeval
wait_ms-Exact default_timeout now deadline =
    let n = if ltb (deadline - now) default_timeout then deadline - now else default_timeout in
    (n / 1_000, n % 1_000 * 1_000, ground arith, omega arith, omega arith)
