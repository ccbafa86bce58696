-- ===== src/Base/Keeps.antt =====
-- What a call leaves alone: one rule for each way to build a call.
use mathlib.Core.Path.{◌≡◌, refl, ◌∙◌}
use mathlib.Core.Bool.{Bool, true, false}
use zwing.Base.Tests.{if◌then◌else◌}
use zwing.Base.Failure.{Error, Outcome, ok, err, panic, Proc, ◌>>=◌, continue, fail, lift}

-- `m` leaves the view `v` of the world as it was, however it ends.
pub record Keeps {W V A : Type 0} (v : W → V) (m : Proc W A) : Type 0 where
  pub at : (w : W) → v (m w).1 ≡ v w

module _ {W V : Type 0} {v : W → V} where
  pub Keeps-lift : {A : Type 0} (r : Outcome A) → Keeps v (lift r)
  Keeps-lift r = record { at = λ w. refl }

  pub Keeps-fail : {A : Type 0} (e : Error) → Keeps v (fail {A = A} e)
  Keeps-fail e = record { at = λ w. refl }

  pub Keeps-if :
      {A : Type 0} (b : Bool) (m n : Proc W A)
      → Keeps v m
      → Keeps v n
      → Keeps v (if b then m else n)
  Keeps-if true m n km kn = km
  Keeps-if false m n km kn = kn

  module _ {A B : Type 0} where
    Keeps-continue :
        (r : Outcome A) (f : A → Proc W B)
        → ((a : A) → Keeps v (f a))
        → (w : W) → v (continue r f w).1 ≡ v w
    Keeps-continue (ok a) f kf w = (kf a).at w
    Keeps-continue (err e) f kf w = refl
    Keeps-continue (panic p) f kf w = refl

    pub Keeps-bind :
        (m : Proc W A) (f : A → Proc W B)
        → Keeps v m
        → ((a : A) → Keeps v (f a))
        → Keeps v (m >>= f)
    unfolding ◌>>=◌
    Keeps-bind m f km kf = record { at = λ w. Keeps-continue (m w).0 f kf (m w).1 ∙ km.at w }

pub ruleset keeps_rules = (Keeps-lift, Keeps-fail, Keeps-if, Keeps-bind)
