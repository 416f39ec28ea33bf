-- ===== src/Multi.antt =====
-- Curl::Multi: ruby_curl_multi of ext/curb_multi.h, the instance variables that ext/curb_multi.c keeps
-- beside it, and the objects that it and the easies point to each other by. An object is its number,
-- and the table `attached` the list of its keys, whose values are the same easies.
pub mod Attach
pub mod Deferred
pub mod Active
pub mod Complete
pub mod Callbacks
pub mod Close
pub mod Held
pub mod Linked
pub mod Perform
pub mod Run
pub mod Loop
pub mod EasyClose
pub mod EasyNew
pub mod Reach
pub mod Counting
pub mod Sockets
pub mod Dispatch
use curb.Base.{
  ℕ, Bool, true, false, Option, none, some, List, [], ◌∷◌, ◌==◌, if◌then◌else◌, any, not,
}
use curb.Easy.{Easy}
use curb.Ruby.{Exn}

pub record Multi : Type 0 where
  pub active : ℕ
  pub running : ℕ
  pub closed : Bool
  pub perform_active : Bool
  pub callback_active : Bool
  pub allow_close_during_perform : Bool
  pub handle : Option ℕ
  pub attached : Option (List ℕ)
  -- @requests, by the keys; @deferred_exception and its source
  pub requests : List ℕ
  pub deferred_exception : Option Exn
  pub deferred_source : Option ℕ

-- CURLMcode: CURLM_CALL_MULTI_PERFORM, CURLM_OK, and the errors
pub data Mcode : Type 0 where
  call_multi_perform : Mcode
  mcode_ok : Mcode
  mcode_error : ℕ → Mcode

-- The libcurl calls that these functions make, on a state of libcurl's own.
pub record Libcurl : Type 1 where
  pub State : Type 0
  pub multi_init : State → State × Option ℕ
  pub multi_cleanup : State → ℕ → State
  pub add_handle : State → Option ℕ → Option ℕ → State × Mcode
  pub remove_handle : State → Option ℕ → Option ℕ → State × Mcode

-- All objects, and libcurl.
pub record World (L : Libcurl) : Type 0 where
  pub easies : ℕ → Easy
  pub multis : ℕ → Multi
  pub lib : L.State

abbrev pub set_at {κ} : {Object : Type κ} → (ℕ → Object) → ℕ → Object → (ℕ → Object)
set_at objects i new j = if j == i then new else objects j

module _ {L : Libcurl} where
  abbrev pub set_easy : World L → ℕ → Easy → World L
  set_easy w i e = record w { easies = set_at w.easies i e }

  abbrev pub set_multi : World L → ℕ → Multi → World L
  set_multi w i m = record w { multis = set_at w.multis i m }

  abbrev pub set_lib : World L → L.State → World L
  set_lib w l = record w { lib = l }

-- st_lookup and st_delete on the keys
abbrev pub has_key : List ℕ → ℕ → Bool
has_key keys key = any (λ k. k == key) keys

abbrev pub delete_key : List ℕ → ℕ → List ℕ
delete_key [] key = []
delete_key (k ∷ ks) key = if k == key then ks else k ∷ delete_key ks key

abbrev pub keys_of : Option (List ℕ) → List ℕ
keys_of none = []
keys_of (some keys) = keys

abbrev pub delete_from : Option (List ℕ) → ℕ → Option (List ℕ)
delete_from none key = none
delete_from (some keys) key = some (delete_key keys key)

unfoldable pub has_easy : Multi → ℕ → Bool
has_easy m easy = has_key (keys_of m.attached) easy

unfoldable pub forget_easy : Multi → ℕ → Multi
forget_easy m easy = record m { attached = delete_from m.attached easy }
