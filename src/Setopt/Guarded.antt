-- ===== src/Setopt/Guarded.antt =====
-- A setup after any calls of easy.setopt (ext/curb_easy.c).
use curb.Base.{◌≡◌, refl, sym, ◌∙◌, List, [], ◌∷◌, Option, Bytes}
use curb.Base.Int.{ℤ}
use curb.Easy.{Easy, policy_public}
use curb.Network.Cidr.{Family}
use curb.PostField.{Forms}
use curb.Ruby.{Value, ok}
use curb.Setopt.{Curlopt, Convert, Target}
use curb.Setopt.Apply.{setopt}
use curb.Setopt.Policy.{SamePolicy, SafeTarget, setopt-SamePolicy, setopt-SafeTarget}
use curb.Setup.{Setup}
use curb.Setup.Guarded.{Guarded}
use curb.Setup.Lists.{Strings}
use curb.Setup.Whole.{WholeSetup, setup, setup-SetUp}

abbrev pub network_of : WholeSetup → Setup
network_of s = ((s.0.0, s.0.1.network), s.1)

SamePolicy-trans : (a b c : Easy) → SamePolicy a b → SamePolicy b c → SamePolicy a c
SamePolicy-trans a b c p q = (q.0 ∙ p.0, q.1 ∙ p.1, q.2 ∙ p.2, q.3 ∙ p.3, q.4 ∙ p.4)

Guarded-same :
    (inet_pton : Family → Bytes → Option Bytes) (a b : Easy) (s : Setup)
    → SamePolicy a b
    → Guarded inet_pton b s
    → Guarded inet_pton a s
Guarded-same inet_pton a b s same g = rw (sym same.1, sym same.2, sym same.3, sym same.4) g

module _ {F : Forms} (C : Convert) where
  -- One call after another; an exception is rescued.
  abbrev pub setopts : (unset : ℤ) → List (Curlopt × Value) → Target F → Target F
  setopts unset [] t = t
  setopts unset ((option, v) ∷ calls) t = setopts unset calls (setopt C unset option v t).0

  setopts-SamePolicy :
      (unset : ℤ) (calls : List (Curlopt × Value)) (t : Target F)
      → SamePolicy t.call.easy (setopts unset calls t).call.easy
  setopts-SamePolicy unset [] t = (refl, refl, refl, refl, refl)
  setopts-SamePolicy unset ((option, v) ∷ calls) t =
      let u = (setopt C unset option v t).0 in
      SamePolicy-trans t.call.easy u.call.easy (setopts unset calls u).call.easy
        (setopt-SamePolicy C unset option v t) (setopts-SamePolicy unset calls u)

  setopts-SafeTarget :
      (unset : ℤ) (calls : List (Curlopt × Value)) (t : Target F)
      → SafeTarget C t
      → SafeTarget C (setopts unset calls t)
  setopts-SafeTarget unset [] t safe = safe
  setopts-SafeTarget unset ((option, v) ∷ calls) t safe =
      setopts-SafeTarget unset calls (setopt C unset option v t).0
        (setopt-SafeTarget C unset option v t safe)

  module _ (inet_pton : Family → Bytes → Option Bytes) (S : Strings) where
    -- Under the public policy, where the easy has a handle whose list options are NULL or the easy's
    -- lists, a setup after any calls of setopt, the ones that raise included, leaves the handle, if it
    -- does not raise, guarded by what the easy had before those calls.
    pub setopts-Guarded :
        (unset : ℤ) (calls : List (Curlopt × Value)) (t : Target F)
        → SafeTarget C t
        → t.call.easy.network_policy ≡ policy_public
        → (setup inet_pton S (setopts unset calls t).call.easy (setopts unset calls t).options).1
          ≡ ok tt
        → Guarded inet_pton t.call.easy (
            network_of
              (setup inet_pton S (setopts unset calls t).call.easy (setopts unset calls t).options))
    setopts-Guarded unset calls t safe public done =
        let u = setopts unset calls t in
        let same = setopts-SamePolicy unset calls t in
        let after = setopts-SafeTarget unset calls t safe in
        let whole = setup-SetUp inet_pton S u.call.easy u.options after.0 after.1 in
        Guarded-same inet_pton t.call.easy u.call.easy
          (network_of (setup inet_pton S u.call.easy u.options)) same
          ((whole.2 done).1 (same.0 ∙ public))
