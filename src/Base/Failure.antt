-- ===== src/Base/Failure.antt =====
-- errors.go, Go's two ways to fail, and calls that change the world outside the program.
use mathlib.Core.Path.{◌≡◌, refl, ap}
use native.Mathlib.Omega.{arith}
use Prim.Native.Nat.{ℕ}
use mathlib.Core.List.{List, []}

-- The package's errors, the four that it makes by errors.New where they arise, and the errors of
-- the libraries and of the operating system, each by a number.
pub data Error : Type 0 where
  handshake_failed identity_mismatch signature_invalid message_too_large : Error
  short_read invalid_wire_format channel_closed sequence_exhausted : Error
  config_missing_id ciphertext_corrupted : Error
  invalid_xwing_public_key_size invalid_xwing_ciphertext_size : Error
  invalid_public_identity_size handshake_aead_open_failed : Error
  external : ℕ → Error

pub data Panic : Type 0 where
  u16_out_of_range chacha_key_size nil_dereference slice_bounds public_key_length : Panic

pub data Outcome {ℓ} (A : Type ℓ) : Type ℓ where
  ok : A → Outcome A
  err : Error → Outcome A
  panic : Panic → Outcome A

unfoldable pub and_then {ℓ κ} : {A : Type ℓ} {B : Type κ} → Outcome A → (A → Outcome B) → Outcome B
and_then (ok a) f = f a
and_then (err e) f = err e
and_then (panic p) f = panic p

module _ {ℓ κ} {A : Type ℓ} {B : Type κ} (m : Outcome A) (f : A → Outcome B) where
  -- How two steps succeed: through the first.
  pub data ViaOk (b : B) : Type (ℓ ⊔ κ) where
    via_ok : (a : A) → m ≡ ok a → f a ≡ ok b → ViaOk b

pub and_then-eq_ok {ℓ κ} :
    {A : Type ℓ} {B : Type κ} (m : Outcome A) (f : A → Outcome B) {b : B}
    → and_then m f ≡ ok b
    → ViaOk m f b
unfolding and_then
and_then-eq_ok (ok a) f h = via_ok a refl h
and_then-eq_ok (err e) f h = cc
and_then-eq_ok (panic p) f h = cc

module _ {ℓ κ} {A : Type ℓ} {B : Type κ} (m : Outcome A) (f : A → Outcome B) where
  -- How two steps fail: in the first, or in the second.
  pub data FailedOk (e : Error) : Type (ℓ ⊔ κ) where
    first_failed : m ≡ err e → FailedOk e
    next_failed : (a : A) → m ≡ ok a → f a ≡ err e → FailedOk e

pub and_then-eq_err {ℓ κ} :
    {A : Type ℓ} {B : Type κ} (m : Outcome A) (f : A → Outcome B) {e : Error}
    → and_then m f ≡ err e
    → FailedOk m f e
unfolding and_then
and_then-eq_err (ok a) f h = next_failed a refl h
and_then-eq_err (err g) f h = first_failed cc
and_then-eq_err (panic p) f h = cc

pub err_inj {ℓ} : {A : Type ℓ} {e f : Error} → ◌≡◌ {A = Outcome A} (err e) (err f) → e ≡ f
err_inj h = cc

pub ok-ne-err {ℓ} : {A : Type ℓ} {o : Outcome A} {a : A} {e : Error} → o ≡ ok a → ¬ (o ≡ err e)
ok-ne-err h k = cc

-- A call in a world of connections, clocks and entropy, which keeps what it did also when it fails.
abbrev pub Proc : Type 0 → Type 0 → Type 0
Proc W A = W → Outcome A × W

module _ {W A B : Type 0} where
  abbrev pub continue : Outcome A → (A → Proc W B) → Proc W B
  continue (ok a) f w = f a w
  continue (err e) f w = (err e, w)
  continue (panic p) f w = (panic p, w)

  infixl 5 ◌>>=◌ ◌>>◌
  unfoldable pub ◌>>=◌ : Proc W A → (A → Proc W B) → Proc W B
  ◌>>=◌ m f w = continue (m w).0 f (m w).1

  abbrev pub ◌>>◌ : Proc W A → Proc W B → Proc W B
  m >> n = m >>= λ _. n

module _ {W A B : Type 0} where
  continue-eq_ok :
      (r : Outcome A) (f : A → Proc W B) (w : W) {b : B} {w'' : W}
      → continue r f w ≡ (ok b, w'')
      → (a : A) × (r ≡ ok a) × (f a w ≡ (ok b, w''))
  continue-eq_ok (ok a) f w h = (a, refl, h)
  continue-eq_ok (err e) f w h = ground arith
  continue-eq_ok (panic p) f w h = ground arith

module _ {W A : Type 0} where
  abbrev pub pure : A → Proc W A
  pure a w = (ok a, w)

  abbrev pub fail : Error → Proc W A
  fail e w = (err e, w)

  -- A computation that leaves the world alone.
  abbrev pub lift : Outcome A → Proc W A
  lift r w = (r, w)

pub ok_inj {ℓ} : {A : Type ℓ} {a b : A} → ok a ≡ ok b → a ≡ b
ok_inj e = cc

pub pure-eq_ok : {W A : Type 0} {a b : A} {w w' : W} → pure a w ≡ (ok b, w') → a ≡ b
pure-eq_ok e = ok_inj (ap (λ p. p.0) e)

module _ {W A B : Type 0} (m : Proc W A) (f : A → Proc W B) (w : W) where
  -- The steps of a `do` block, by what its first call returned.
  pub bind_ok : {a : A} {w' : W} → m w ≡ (ok a, w') → (m >>= f) w ≡ f a w'
  unfolding ◌>>=◌
  bind_ok h = rw h

  pub bind_err : {e : Error} {w' : W} → m w ≡ (err e, w') → (m >>= f) w ≡ (err e, w')
  unfolding ◌>>=◌
  bind_err h = rw h

  -- How a block succeeds: through its first call.
  pub data Via (b : B) (w'' : W) : Type 0 where
    via : (a : A) (w' : W) → m w ≡ (ok a, w') → f a w' ≡ (ok b, w'') → Via b w''

  pub bind-eq_ok : {b : B} {w'' : W} → (m >>= f) w ≡ (ok b, w'') → Via b w''
  unfolding ◌>>=◌
  bind-eq_ok h =
      let (a, e, g) = continue-eq_ok (m w).0 f (m w).1 h in via a (m w).1 (λ i. (e i, (m w).1)) g

module _ {W A B : Type 0} where
  -- How a block fails: in its first call, or after it.
  pub data FailedVia (m : Proc W A) (f : A → Proc W B) (w : W) (e : Error) (w'' : W) : Type 0 where
    at_once : m w ≡ (err e, w'') → FailedVia m f w e w''
    later : (a : A) (w' : W) → m w ≡ (ok a, w') → f a w' ≡ (err e, w'') → FailedVia m f w e w''

  continue-eq_err :
      (m : Proc W A) (f : A → Proc W B) (w w' w'' : W) (o : Outcome A) {e : Error}
      → m w ≡ (o, w')
      → continue o f w' ≡ (err e, w'')
      → FailedVia m f w e w''
  continue-eq_err m f w w' w'' (ok a) run h = later a w' run h
  continue-eq_err m f w w' w'' (err g) run h = at_once cc
  continue-eq_err m f w w' w'' (panic p) run h = cc

  pub bind-eq_err :
      (m : Proc W A) (f : A → Proc W B) (w w'' : W) {e : Error}
      → (m >>= f) w ≡ (err e, w'')
      → FailedVia m f w e w''
  unfolding ◌>>=◌
  bind-eq_err m f w w'' h = continue-eq_err m f w (m w).1 w'' (m w).0 refl h

module _ {W A B : Type 0} (r : Outcome A) (f : A → Proc W B) (w : W) where
  pub data ViaLift (b : B) (w'' : W) : Type 0 where
    via_lift : (a : A) → r ≡ ok a → f a w ≡ (ok b, w'') → ViaLift b w''

  pub bind_lift-eq_ok : {b : B} {w'' : W} → (lift r >>= f) w ≡ (ok b, w'') → ViaLift b w''
  unfolding ◌>>=◌
  bind_lift-eq_ok h = let (a, e, g) = continue-eq_ok r f w h in via_lift a e g

  pub bind_lift_ok : {a : A} → r ≡ ok a → (lift r >>= f) w ≡ f a w
  unfolding ◌>>=◌
  bind_lift_ok h = rw h

-- `x, _ := f()` for a slice: its error is dropped and the slice is nil.
abbrev pub or_nil : Outcome (List ℕ) → Outcome (List ℕ)
or_nil (ok bs) = ok bs
or_nil (err e) = ok []
or_nil (panic p) = panic p

abbrev pub proc_or_nil : {W : Type 0} → Proc W (List ℕ) → Proc W (List ℕ)
proc_or_nil m w = (or_nil (m w).0, (m w).1)
