-- ===== src/Request/Restored.antt =====
-- What a request leaves of the handle's options (ext/curb_easy.c).
use curb.Base.{
  Bool, true, false, Option, none, some, List, Bytes, codes, if◌then◌else◌, ◌≡◌, refl, ◌∙◌, arith,
  inl, inr, ap, if-true, if-false,
}
use curb.PostField.{Forms}
use curb.Request.{
  Call, clear_error_buffer, perform_verb_str, request_restore, restored, is_head, with_verb,
  post_body_set, post_body_set_with_mode,
}
use curb.Request.Perform.{
  Argument, Ruby, joined_body, join_easy_arguments, perform_multipart, perform_post, perform_patch,
  and_perform, append_arguments,
}
use curb.Ruby.{Value, Result, ok, raise, Result-cases}

abbrev pub went_well {ℓ} : {A : Type ℓ} → Result A → Bool
went_well (ok a) = true
went_well (raise x) = false

module _ {F : Forms} where
  abbrev pub as_post : Call F → Call F
  as_post c = record (clear_error_buffer c) { customrequest = none }

  abbrev pub as_patch : Call F → Call F
  as_patch c = record (clear_error_buffer c) { customrequest = some (codes "PATCH") }

  restored-customrequest :
      (nobody postfields : Bool) (r : Call F × Result Value)
      → (restored true nobody postfields r).0.customrequest ≡ none
  unfolding request_restore
  restored-customrequest true true (c, r) = refl
  restored-customrequest true false (c, r) = refl
  restored-customrequest false true (c, r) = refl
  restored-customrequest false false (c, r) = refl

module _ {F : Forms} (R : Ruby F) where
  multipart-customrequest :
      (arguments : List Argument) (c : Call F)
      → (perform_multipart R true arguments c).0.customrequest ≡ none
  unfolding perform_multipart
  multipart-customrequest arguments c =
      elim (Result-cases (append_arguments F arguments F.no_form).1) [
        | inl (u, e) ↦ rw (e, perform_multipart) refl
        | inr (x, e) ↦ rw (e, perform_multipart) refl
      ]

  and_perform-customrequest :
      (nobody postfields : Bool) (r : Call F × Result (Unit {0}))
      → (and_perform R true nobody postfields r).0.customrequest
        ≡ (if went_well r.1 then none else r.0.customrequest)
  and_perform-customrequest nobody postfields (c, ok u) =
      restored-customrequest nobody postfields (R.perform c)
  and_perform-customrequest nobody postfields (c, raise x) = refl

  -- Setting a body leaves the verb.
  joined_body-customrequest :
      (arguments : List Argument) (c : Call F)
      → (joined_body R (join_easy_arguments R arguments c)).0.customrequest ≡ c.customrequest
  unfolding join_easy_arguments post_body_set post_body_set_with_mode
  joined_body-customrequest arguments c = ground arith

  abbrev pub joining : List Argument → Call F → Call F × Result (Unit {0})
  joining arguments c = joined_body R (join_easy_arguments R arguments c)

  -- After easy.http, after a post that is not multipart, and after a multipart patch, whatever the
  -- transfer does and whether or not it raises, the handle has no verb of its own. After a patch that is
  -- not multipart it has none if the arguments could be joined and set as the body; if that raised, the
  -- patch raises, and PATCH stays set.
  pub requests-customrequest :
      (verb : Bytes) (arguments : List Argument) (c : Call F)
      → ((perform_verb_str R.perform verb c).0.customrequest ≡ none)
        × (c.easy.multipart_form_post ≡ false → (perform_post R arguments c).0.customrequest ≡ none)
        × (c.easy.multipart_form_post ≡ true → (perform_patch R arguments c).0.customrequest ≡ none)
        × (c.easy.multipart_form_post ≡ false
            → (perform_patch R arguments c).0.customrequest ≡ (
                if went_well (joining arguments (as_patch c)).1
                then none
                else some (codes "PATCH")))
  unfolding perform_verb_str perform_post perform_patch
  requests-customrequest verb arguments c = (
    restored-customrequest (is_head verb) false (R.perform (with_verb verb c)),
    λ plain.
        verb_of (
          if-false multipart (perform_multipart R false arguments (as_post c))
            (performed false (as_post c)) plain)
        ∙ and_perform-customrequest false false (joining arguments (as_post c))
        ∙ same_branches (went_well (joining arguments (as_post c)).1)
            (joined_body-customrequest arguments (as_post c)),
    λ many.
        verb_of (
          if-true multipart (perform_multipart R true arguments (as_patch c))
            (performed true (as_patch c)) many)
        ∙ multipart-customrequest arguments (as_patch c),
    λ plain.
        verb_of (
          if-false multipart (perform_multipart R true arguments (as_patch c))
            (performed true (as_patch c)) plain)
        ∙ and_perform-customrequest false true (joining arguments (as_patch c))
        ∙ ap (λ v. if went_well (joining arguments (as_patch c)).1 then none else v)
            (joined_body-customrequest arguments (as_patch c)),
  )
    where
      multipart : Bool
      multipart = c.easy.multipart_form_post

      performed : Bool → Call F → Call F × Result Value
      performed fields c' = and_perform R true false fields (joining arguments c')

      verb_of : {r s : Call F × Result Value} → r ≡ s → r.0.customrequest ≡ s.0.customrequest
      verb_of e = ap (λ (r : Call F × Result Value). r.0.customrequest) e

      same_branches : {v : Option Bytes} (b : Bool) → v ≡ none → (if b then none else v) ≡ none
      same_branches true e = refl
      same_branches false e = e
