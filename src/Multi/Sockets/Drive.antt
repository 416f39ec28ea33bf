-- ===== src/Multi/Sockets/Drive.antt =====
-- The loop rb_curl_multi_socket_drive of ext/curb_multi.c, which waits through a fiber scheduler, as
-- built with the io_select hook and rb_wait_for_single_fd. Its state is the world and the context of
-- the callbacks. A callback of libcurl works on the context when the call that made it returns.
use curb.Base.{ℕ, ◌==◌, Bool, false, ◌||◌, Option, none, some, List, [], ◌∷◌, ◌++◌, if◌then◌else◌}
use curb.Multi.{Mcode, Libcurl, World}
use curb.Multi.Loop.{Driver}
use curb.Multi.Sockets.{SocketCtx}
use curb.Multi.Sockets.Wait.{CtxCall, Timeval, FdSets, is_set, ready_flags}
use curb.Ruby.{Result}

-- What the waits give. rb_fiber_scheduler_io_select: Qundef, no Array, or three entries, each an Array
-- of IO objects or not; an IO object is the descriptor that it was made for.
pub data IoSelect : Type 0 where
  unimplemented : IoSelect
  no_array : IoSelect
  selected_ios : (r w e : Option (List ℕ)) → IoSelect

-- io_wait: nil or false, an Integer, or another object.
pub data IoWait : Type 0 where
  no_event : IoWait
  events : ℕ → IoWait
  some_event : IoWait

-- rb_thread_fd_select: how many are ready, and the sets; or -1 with errno, EINTR or another.
pub data FdSelect : Type 0 where
  selected_fds : (n : ℕ) → (r w e : List ℕ) → FdSelect
  fds_interrupted fds_failed : FdSelect

pub data SingleWait : Type 0 where
  single_events : ℕ → SingleWait
  single_interrupted single_failed : SingleWait

-- What the loop calls besides: curl_multi_socket_action, on a descriptor or CURL_SOCKET_TIMEOUT;
-- the calls that libcurl has made to the callbacks since it was last asked; the clock; the scheduler, if
-- there is one; fcntl; IO.for_fd, which gives an IO object or nil; and the waits. Any of them may let
-- other fibers run.
pub record SocketDriver (L : Libcurl) : Type 0 where
  pub driver : Driver L
  pub socket_action : ℕ → Option ℕ → ℕ → World L → World L × Mcode × ℕ
  pub heard : World L → World L × List CtxCall
  pub clock : World L → World L × ℕ
  pub has_scheduler : World L → Bool
  pub fd_valid : ℕ → World L → Bool
  pub for_fd : (fd what : ℕ) → World L → World L × Result Bool
  pub io_select : (r w e : List ℕ) → Timeval → World L → World L × Result IoSelect
  pub io_wait : (fd event_mask : ℕ) → Timeval → World L → World L × Result IoWait
  pub fd_select : FdSets → Timeval → World L → World L × FdSelect
  pub wait_single : (fd event_mask : ℕ) → Timeval → World L → World L × SingleWait
  pub scheduler_sleep : Timeval → World L → World L × Result (Unit {0})

abbrev pub Driving : Libcurl → Type 0
Driving L = World L × SocketCtx

-- How a pass of the loop has waited: it is time to call libcurl for its timeout; or the one descriptor
-- is ready with flags; or neither is to be done.
pub data Waited : Type 0 where
  timed_out nothing_more : Waited
  fd_ready : (fd what flags : ℕ) → Waited

pub record IoArrays : Type 0 where
  pub readables : List ℕ
  pub writables : List ℕ
  pub exceptables : List ℕ

abbrev pub array_or_empty : Option (List ℕ) → List ℕ
array_or_empty none = []
array_or_empty (some ios) = ios

abbrev pub cached : Option (List ℕ) → ℕ → Bool
cached none fd = false
cached (some fds) fd = is_set fd fds

abbrev pub cache_io : Option (List ℕ) → ℕ → Option (List ℕ)
cache_io none fd = none
cache_io (some fds) fd = some (fd ∷ fds)

-- The flags of the IO object that is kept for a descriptor, if one is.
abbrev pub io_flags : Option (List ℕ) → (r w e : List ℕ) → ℕ → ℕ
io_flags io_cache r w e fd = if cached io_cache fd then ready_flags r w e fd else 0

abbrev pub pushed : ℕ → ℕ → IoArrays → IoArrays
pushed fd what a = record {
  readables = if what == 1 || what == 3 then a.readables ++ (fd ∷ []) else a.readables;
  writables = if what == 2 || what == 3 then a.writables ++ (fd ∷ []) else a.writables;
  exceptables = a.exceptables ++ (fd ∷ []);
}
