-- ===== src/Multi/Reach.antt =====
-- Everything that may happen to the objects of ext/curb_multi.c and ext/curb_easy.c, one operation
-- after another: what the attachments look like at any time.
use curb.Base.{ℕ, ◌≡◌, true, Option, none, some, Bytes, subst, arith}
use curb.Easy.{Easy}
use curb.Ruby.{Result, Value}
use curb.Multi.{Multi, Libcurl, World, set_easy, set_multi, set_lib, has_easy}
use curb.Multi.Attach.{multi_add, multi_remove, easy_multi_set, easy_free, multi_close}
use curb.Multi.EasyClose.{Opening, easy_close, easy_close-Linked}
use curb.Multi.Complete.{Info, taken_off, finish_completion_callbacks, handle_complete}
use curb.Multi.Dispatch.{multi_perform}
use curb.Multi.EasyNew.{BlockKeeps, easy_new, easy_new-Linked}
use curb.Multi.Linked.{Linked}
use curb.Multi.Linked.Ops.{Keeps, multi_add-Linked, touch-Linked, work-Linked}
use curb.Multi.Linked.Detach.{Refused, multi_remove-Linked, easy_free-Linked, easy_multi_set-Linked}
use curb.Multi.Linked.Complete.{handle_complete-Linked}
use curb.Multi.Linked.Perform.{Polite, LinkedWith, multi_perform-Leaves}
use curb.Multi.Run.{Leaves}
use curb.Multi.Sockets.Drive.{SocketDriver}
use curb.Multi.Sockets.Perform.{Hooks}
use curb.Multi.Linked.Close.{multi_close-Linked, taken_off-Linked, finish-Linked}

module _ {L : Libcurl} where
  -- The operations that attach and detach; a transfer that finishes, before and after its procs, which
  -- may themselves do any of these, and as a whole; a new easy; a perform that ends or raises; and all
  -- else, which leaves tables and `multi` as they are.
  pub data Step : World L → World L → Type 0 where
    add :
        (setup : Easy → Easy × Result (Unit {0})) (self easy : ℕ) (w : World L)
        → Keeps setup
        → Step w (multi_add setup self easy w).0
    remove :
        (self easy : ℕ) (w : World L) → Refused w self easy → Step w (multi_remove self easy w).0
    assign : (easy : ℕ) (multi : Option ℕ) (w : World L) → Step w (easy_multi_set easy multi w).0
    free : (easy : ℕ) (w : World L) → Step w (easy_free easy w)
    close_easy : (o : Opening) (easy : ℕ) (w : World L) → Step w (easy_close o easy w).0
    close : (self : ℕ) (w : World L) → Step w (multi_close self w).0
    take_off : (self easy : ℕ) (w : World L) → Step w (taken_off self easy w)
    finish : (self easy : ℕ) (w : World L) → Step w (finish_completion_callbacks self easy w)
    create :
        (o : Opening) (private : Result (Unit {0})) (url : Option Bytes)
        (block : Option (World L → World L × Result Value)) (easy : ℕ) (w : World L)
        → (w.easies easy).multi ≡ none
        → BlockKeeps block
        → Step w (easy_new o private url block easy w).0
    complete :
        (call : ℕ → ℕ → World L → World L × Result Value)
        → ((proc easy : ℕ) (w : World L) → Linked w → Linked (call proc easy w).0)
        → (info : World L → Info) (self easy result : ℕ) (w : World L)
        → Step w (handle_complete call info self easy result w).0
    perform_multi :
        (D : SocketDriver L) (self : ℕ)
        → Polite D self
        → (fuel : ℕ) (w u : World L) (hooks hooks' : Hooks) (r : Result (Unit {0}))
        → multi_perform D self fuel (w, hooks) ≡ some ((u, hooks'), r)
        → Step w u
    change_easy :
        (easy : ℕ) (e : Easy) (w : World L)
        → e.multi ≡ (w.easies easy).multi
        → Step w (set_easy w easy e)
    change_multi :
        (self : ℕ) (m : Multi) (w : World L)
        → m.attached ≡ (w.multis self).attached
        → Step w (set_multi w self m)
    change_lib : (l : L.State) (w : World L) → Step w (set_lib w l)

  pub data Reach (s : World L) : World L → Type 0 where
    here : Reach s s
    next : {t u : World L} → Reach s t → Step t u → Reach s u

  Step-Linked : {w u : World L} → Step w u → Linked w → Linked u
  Step-Linked (add setup self easy w keeps) linked = multi_add-Linked setup self easy w keeps linked
  Step-Linked (remove self easy w refused) linked = multi_remove-Linked self easy w linked refused
  Step-Linked (assign easy multi w) linked = easy_multi_set-Linked easy multi w linked
  Step-Linked (free easy w) linked = easy_free-Linked easy w linked
  Step-Linked (close_easy o easy w) linked = easy_close-Linked o easy w linked
  Step-Linked (close self w) linked = multi_close-Linked self w linked
  Step-Linked (take_off self easy w) linked = taken_off-Linked self easy w linked
  Step-Linked (finish self easy w) linked = finish-Linked self easy w linked
  Step-Linked (create o private url block easy w loose keeps) linked =
      easy_new-Linked o private url block easy w loose keeps linked
  Step-Linked (complete call keeps info self easy result w) linked =
      handle_complete-Linked call keeps info self easy result w linked
  Step-Linked (perform_multi D self polite fuel w u hooks hooks' r done) linked =
      subst (Leaves (LinkedWith D self)) done
        (multi_perform-Leaves D self polite fuel w hooks linked)
  Step-Linked (change_easy easy e w same) linked = touch-Linked w easy e linked same
  Step-Linked (change_multi self m w same) linked = work-Linked w self m linked same
  Step-Linked (change_lib l w) linked = linked

  -- At the start no multi has a table.
  abbrev pub Fresh : World L → Type 0
  Fresh w = (m : ℕ) → (w.multis m).attached ≡ none

  Fresh-Linked : (w : World L) → Fresh w → Linked w
  unfolding has_easy
  Fresh-Linked w fresh = (λ m k h. absurd (ground (arith, fresh m)), λ m. rw (fresh m) tt)

  reached-Linked : (s : World L) {t : World L} → Fresh s → Reach s t → Linked t
  reached-Linked s fresh here = Fresh-Linked s fresh
  reached-Linked s fresh (next r step) = Step-Linked step (reached-Linked s fresh r)

  -- After any sequence of operations, whole performs among them, on objects that started with no
  -- tables, each easy in a table points back to the multi of that table, no table has an easy twice, and
  -- no two multis hold the same easy: where a removal that libcurl accepts is of an easy that no other
  -- table has, a new easy is in no multi, and setups, procs, blocks and the system keep what points to
  -- what.
  pub Reach-Linked :
      (s t : World L)
      → Fresh s
      → Reach s t
      → Linked t
        × ((m n k : ℕ) → has_easy (t.multis m) k ≡ true → has_easy (t.multis n) k ≡ true → m ≡ n)
  Reach-Linked s t fresh r =
      let linked = reached-Linked s fresh r in
      (
        linked,
        λ m n k there too.
            let first = linked.0 m k there in let second = linked.0 n k too in ground arith,
      )
