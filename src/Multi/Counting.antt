-- ===== src/Multi/Counting.antt =====
-- The count of active transfers of a multi over sequences of operations (ext/curb_multi.c).
use curb.Base.{ℕ, ◌≡◌, true, subst, sym}
use curb.Easy.{Easy}
use curb.Multi.{Libcurl, World, mcode_ok, has_easy}
use curb.Multi.Active.{
  Counted, multi_add-Counted, detach_easy-Counted, multi_remove-Counted, taken_off-Counted,
}
use curb.Multi.Attach.{multi_add, multi_remove, detach_easy}
use curb.Multi.Complete.{taken_off}
use curb.Ruby.{Result}

module _ {L : Libcurl} (self : ℕ) where
  -- What keeps the books of a multi: adding any easy; detaching one with the result CURLM_OK; removing
  -- or taking off one that its table has; and all that leaves the multi as it is.
  pub data Booked : World L → World L → Type 0 where
    add :
        (setup : Easy → Easy × Result (Unit {0})) (easy : ℕ) (w : World L)
        → Booked w (multi_add setup self easy w).0
    detach :
        (easy : ℕ) (w : World L)
        → (detach_easy self easy w).1 ≡ mcode_ok
        → Booked w (detach_easy self easy w).0
    remove :
        (easy : ℕ) (w : World L)
        → has_easy (w.multis self) easy ≡ true
        → Booked w (multi_remove self easy w).0
    take_off :
        (easy : ℕ) (w : World L)
        → has_easy (w.multis self) easy ≡ true
        → Booked w (taken_off self easy w)
    elsewhere : (w u : World L) → u.multis self ≡ w.multis self → Booked w u

  pub data Books (s : World L) : World L → Type 0 where
    opened : Books s s
    entered : {t u : World L} → Books s t → Booked t u → Books s u

  Booked-Counted : {w u : World L} → Booked w u → Counted (w.multis self) → Counted (u.multis self)
  Booked-Counted (add setup easy w) h = multi_add-Counted setup self easy w h
  Booked-Counted (detach easy w done) h = detach_easy-Counted self easy w h done
  Booked-Counted (remove easy w held) h = multi_remove-Counted self easy w h held
  Booked-Counted (take_off easy w held) h = taken_off-Counted self easy w h held
  Booked-Counted (elsewhere w u same) h = subst Counted (sym same) h

  -- If the count of a multi is the size of its table, it is so after any sequence of additions,
  -- detachments that libcurl grants, removals and completions of easies that the table has, and
  -- whatever leaves the multi alone.
  pub Books-Counted :
      (s : World L) {t : World L} → Books s t → Counted (s.multis self) → Counted (t.multis self)
  Books-Counted s opened h = h
  Books-Counted s (entered books step) h = Booked-Counted step (Books-Counted s books h)
