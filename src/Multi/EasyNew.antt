-- ===== src/Multi/EasyNew.antt =====
-- A new easy in ext/curb_easy.c: its allocation and Curl::Easy.new.
use curb.Base.{ℕ, ◌≡◌, refl, Option, none, some, Bytes}
use curb.Base.Int.{ℤ}
use curb.Easy.{Easy, zero}
use curb.Multi.{Libcurl, World, set_easy}
use curb.Multi.Complete.{and_then}
use curb.Multi.EasyClose.{Opening, opened, opened-Linked}
use curb.Multi.Linked.{Linked}
use curb.Multi.Linked.Complete.{and_then-Linked}
use curb.Multi.Linked.Ops.{touch-Linked}
use curb.Ruby.{Result, ok, raise, Value}

-- ruby_curl_easy_allocate; `memory` is what ALLOC gives, which is not cleared.
unfoldable pub easy_allocate : ℤ → ℕ → (memory : Easy) → Easy
easy_allocate http_version_none ipresolve_whatever memory =
    zero http_version_none ipresolve_whatever (record memory { curl = none; multi = none })

module _ {L : Libcurl} where
  abbrev pub url_kept : Option Bytes → ℕ → World L → World L
  url_kept url easy w =
      let e = w.easies easy in set_easy w easy (record e { opts = record (e.opts) { url = url } })

  -- CURLOPT_PRIVATE is set after the url is kept.
  abbrev pub private_set :
      Option Bytes → Result (Unit {0}) → ℕ → World L → World L × Result (Unit {0})
  private_set url private easy w = (url_kept url easy w, private)

  abbrev pub block_result : World L × Result Value → World L × Result (Unit {0})
  block_result (w, ok v) = (w, ok tt)
  block_result (w, raise x) = (w, raise x)

  abbrev pub block_called :
      Option (World L → World L × Result Value) → World L → World L × Result (Unit {0})
  block_called none w = (w, ok tt)
  block_called (some block) w = block_result (block w)

  -- ruby_curl_easy_initialize; the options of the opening are CURLOPT_NOSIGNAL alone.
  unfoldable pub easy_new :
      Opening
      → (private : Result (Unit {0})) → (url : Option Bytes)
      → (block : Option (World L → World L × Result Value)) → ℕ
      → World L
      → World L × Result (Unit {0})
  easy_new o private url block easy w =
      and_then (opened o easy w) λ w. and_then (private_set url private easy w) (block_called block)

  block_result-Linked : (r : World L × Result Value) → Linked r.0 → Linked (block_result r).0
  block_result-Linked (w, ok v) linked = linked
  block_result-Linked (w, raise x) linked = linked

  -- What a block must keep, if there is one.
  abbrev pub BlockKeeps : Option (World L → World L × Result Value) → Type 0
  BlockKeeps none = Unit
  BlockKeeps (some block) = (w : World L) → Linked w → Linked (block w).0

  block_called-Linked :
      (block : Option (World L → World L × Result Value)) (w : World L)
      → BlockKeeps block
      → Linked w
      → Linked (block_called block w).0
  block_called-Linked none w keeps linked = linked
  block_called-Linked (some block) w keeps linked = block_result-Linked (block w) (keeps w linked)

  -- A new easy of an object that no multi is kept for.
  pub easy_new-Linked :
      (o : Opening) (private : Result (Unit {0})) (url : Option Bytes)
      (block : Option (World L → World L × Result Value)) (easy : ℕ) (w : World L)
      → (w.easies easy).multi ≡ none
      → BlockKeeps block
      → Linked w
      → Linked (easy_new o private url block easy w).0
  unfolding easy_new
  easy_new-Linked o private url block easy w loose keeps linked =
      and_then-Linked (opened o easy w)
        (λ w. and_then (private_set url private easy w) (block_called block))
        (opened-Linked o easy w linked loose)
        (λ w linked.
          let e = record (w.easies easy) { opts = record ((w.easies easy).opts) { url = url } } in
          and_then-Linked (private_set url private easy w) (block_called block)
            (touch-Linked w easy e linked refl)
            (λ w linked. block_called-Linked block w keeps linked))
