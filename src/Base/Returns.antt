-- ===== src/Base/Returns.antt =====
-- Calls that never panic: one rule for each way to build a call.
use mathlib.Core.Path.{◌≡◌, refl}
use mathlib.Core.Logic.{◌≢◌}
use mathlib.Core.Bool.{Bool, true, false}
use mathlib.Core.List.{List}
use Prim.Native.Nat.{ℕ}
use zwing.Base.Tests.{if◌then◌else◌}
use zwing.Base.Failure.{
  Error, Panic, Outcome, ok, err, panic, and_then, Proc, ◌>>=◌, continue, fail, lift, pure, or_nil,
  proc_or_nil,
}

-- An outcome that is a value or an error.
pub record IsReturn {A : Type 0} (o : Outcome A) : Type 0 where
  pub never : (p : Panic) → o ≢ panic p

-- A call whose every outcome is a value or an error.
pub record Returns {W A : Type 0} (m : Proc W A) : Type 0 where
  pub at : (w : W) → IsReturn (m w).0

pub IsReturn-ok : {A : Type 0} (a : A) → IsReturn (ok a)
IsReturn-ok a = record { never = λ p h. cc }

pub IsReturn-err : {A : Type 0} (e : Error) → IsReturn {A = A} (err e)
IsReturn-err e = record { never = λ p h. cc }

pub IsReturn-if :
    {A : Type 0} (b : Bool) (o s : Outcome A)
    → IsReturn o
    → IsReturn s
    → IsReturn (if b then o else s)
IsReturn-if true o s ho hs = ho
IsReturn-if false o s ho hs = hs

pub IsReturn-and_then :
    {A B : Type 0} (m : Outcome A) (f : A → Outcome B)
    → IsReturn m
    → ((a : A) → IsReturn (f a))
    → IsReturn (and_then m f)
unfolding and_then
IsReturn-and_then (ok a) f hm hf = hf a
IsReturn-and_then (err e) f hm hf = record { never = λ p h. cc }
IsReturn-and_then (panic p) f hm hf = absurd (hm.never p refl)

-- The second call may rest on what the first has returned.
pub IsReturn-and_then_with :
    {A B : Type 0} (m : Outcome A) (f : A → Outcome B)
    → IsReturn m
    → ((a : A) → m ≡ ok a → IsReturn (f a))
    → IsReturn (and_then m f)
unfolding and_then
IsReturn-and_then_with (ok a) f hm hf = hf a refl
IsReturn-and_then_with (err e) f hm hf = record { never = λ p h. cc }
IsReturn-and_then_with (panic p) f hm hf = absurd (hm.never p refl)

pub IsReturn-or_nil : (o : Outcome (List ℕ)) → IsReturn o → IsReturn (or_nil o)
IsReturn-or_nil (ok a) h = record { never = λ p k. cc }
IsReturn-or_nil (err e) h = record { never = λ p k. cc }
IsReturn-or_nil (panic p) h = absurd (h.never p refl)

pub Returns-lift : {W A : Type 0} (o : Outcome A) → IsReturn o → Returns {W = W} (lift o)
Returns-lift o h = record { at = λ w. h }

pub Returns-pure : {W A : Type 0} (a : A) → Returns {W = W} (pure a)
Returns-pure a = record { at = λ w. IsReturn-ok a }

pub Returns-fail : {W A : Type 0} (e : Error) → Returns {W = W} (fail {A = A} e)
Returns-fail e = record { at = λ w. IsReturn-err e }

pub Returns-if :
    {W A : Type 0} (b : Bool) (m n : Proc W A)
    → Returns m
    → Returns n
    → Returns (if b then m else n)
Returns-if true m n hm hn = hm
Returns-if false m n hm hn = hn

module _ {W A B : Type 0} where
  Returns-continue :
      (o : Outcome A) (f : A → Proc W B) (w : W)
      → IsReturn o
      → ((a : A) → o ≡ ok a → Returns (f a))
      → IsReturn (continue o f w).0
  Returns-continue (ok a) f w ho hf = (hf a refl).at w
  Returns-continue (err e) f w ho hf = IsReturn-err e
  Returns-continue (panic p) f w ho hf = absurd (ho.never p refl)

  pub Returns-bind :
      (m : Proc W A) (f : A → Proc W B) → Returns m → ((a : A) → Returns (f a)) → Returns (m >>= f)
  unfolding ◌>>=◌
  Returns-bind m f hm hf = record {
    at = λ w. Returns-continue (m w).0 f (m w).1 (hm.at w) (λ a e. hf a);
  }

  -- A continuation that relies on what the call returned.
  pub Returns-bind_with :
      (m : Proc W A) (f : A → Proc W B)
      → Returns m
      → ((w w' : W) (a : A) → m w ≡ (ok a, w') → Returns (f a))
      → Returns (m >>= f)
  unfolding ◌>>=◌
  Returns-bind_with m f hm hf = record {
    at = λ w.
        Returns-continue (m w).0 f (m w).1 (hm.at w) (λ a e. hf w (m w).1 a (λ i. (e i, (m w).1)));
  }

pub Returns-proc_or_nil : {W : Type 0} (m : Proc W (List ℕ)) → Returns m → Returns (proc_or_nil m)
Returns-proc_or_nil m h = record { at = λ w. IsReturn-or_nil (m w).0 (h.at w) }

pub ruleset returns_rules = (
  IsReturn-ok, IsReturn-err, IsReturn-if, IsReturn-and_then, IsReturn-or_nil, Returns-lift,
  Returns-pure, Returns-fail, Returns-if, Returns-bind, Returns-proc_or_nil,
)
