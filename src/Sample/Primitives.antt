-- ===== src/Sample/Primitives.antt =====
-- Stand-ins for the libraries' primitives, with the documented sizes.
use native.Mathlib.Nat.{mul_comm}
use zwing.Base.{ℕ, ◌+◌, ◌-◌, ◌*◌, ◌≤◌, ◌≡◌, refl, ap, ◌∙◌, ◌++◌, [], ◌∷◌, arith}
use zwing.Base.{
  Bytes, length, length-append, take, drop, take-append, drop-append, zeros, length-zeros,
}
use zwing.Base.{copy_into, length-copy_into, bytes_eq, bytes_eq_refl, if◌then◌else◌}
use zwing.Base.{
  Option, none, some, Outcome, ok, err, external, ok_inj, ok-ne-err, sym, ap₂, bytes_eq→eq,
  Bool-cases, inl, inr,
}

first : Bytes → ℕ
first [] = 0
first (x ∷ xs) = x

-- `n` bytes that begin with `k`: a key, a secret or a ciphertext.
abbrev pub tagged : ℕ → ℕ → Bytes
tagged n k = k ∷ zeros (n - 1)

unfoldable pub untag : ℕ → Bytes → Outcome ℕ
untag n [] = err (external 1)
untag n (k ∷ bs) = if bytes_eq bs (zeros (n - 1)) then ok k else err (external 1)

pub untag-tagged : (n k : ℕ) → untag n (tagged n k) ≡ ok k
unfolding untag
untag-tagged n k = rw (bytes_eq_refl (zeros (n - 1)))

pub tagged-untag : (n : ℕ) (bs : Bytes) (k : ℕ) → untag n bs ≡ ok k → tagged n k ≡ bs
unfolding untag
tagged-untag n [] k e = absurd (ok-ne-err e refl)
tagged-untag n (j ∷ bs) k e = elim (Bool-cases (bytes_eq bs (zeros (n - 1)))) [
  | inl same ↦
      let e' : ◌≡◌ {A = Outcome ℕ} (ok j) (ok k) = rw same at e in
      ap₂ (λ x xs. x ∷ xs) (sym (ok_inj e')) (sym (bytes_eq→eq _ _ same))
  | inr other ↦
      let e' : ◌≡◌ {A = Outcome ℕ} (err (external 1)) (ok k) = rw other at e in
      absurd (ok-ne-err e' refl)
]

pub length-tagged : (n k : ℕ) → 1 ≤ n → length (tagged n k) ≡ n
length-tagged n k h = omega (arith, length-zeros (n - 1))

-- Products of first bytes commute as scalar multiplication does.
unfoldable pub multiply : Bytes → Bytes → Outcome Bytes
unfolding first
multiply k u = ok (tagged 32 (first k * first u))

unfoldable pub one : Bytes
one = tagged 32 1

pub length-multiply : (k u s : Bytes) → multiply k u ≡ ok s → length s ≡ 32
unfolding multiply
length-multiply k u s e = ground (arith, length-zeros 31)

pub multiply_base : (k : Bytes) → (u : Bytes) × (multiply k one ≡ ok u)
unfolding multiply
multiply_base k = (_, refl)

pub multiply_agree :
    (a b u v : Bytes)
    → multiply a one ≡ ok u
    → multiply b one ≡ ok v
    → (s : Bytes) × (multiply a v ≡ ok s) × (multiply b u ≡ ok s)
unfolding multiply one
multiply_agree a b u v eu ev = (
  tagged 32 (first a * first v),
  refl,
  ap (λ n. ok (tagged 32 n)) (ground (arith, ap head eu, ap head ev, mul_comm (first a) (first b))),
)
  where
    head : Outcome Bytes → ℕ
    head (ok bs) = first bs
    head _ = 0

-- A digest or a stream of `n` bytes: the input, cut or padded.
unfoldable pub padded : ℕ → Bytes → Bytes
padded n bs = copy_into (zeros n) bs

pub length-padded : (n : ℕ) (bs : Bytes) → length (padded n bs) ≡ n
unfolding padded
length-padded n bs = length-copy_into (zeros n) bs ∙ length-zeros n

-- A record is the text and sixteen bytes made from the key, the nonce and the associated data.
unfoldable pub seal : Bytes → Bytes → Bytes → Bytes → Bytes
seal key nonce text aad = text ++ padded 16 (key ++ (nonce ++ aad))

pub unseal : Bytes → Bytes → Bytes → Bytes → Option Bytes
unseal key nonce sealed aad =
    let n = length sealed - 16 in
    if bytes_eq (drop n sealed) (padded 16 (key ++ (nonce ++ aad)))
    then some (take n sealed)
    else none

pub length-seal : (key nonce text aad : Bytes) → length (seal key nonce text aad) ≡ length text + 16
unfolding seal
length-seal key nonce text aad =
    let tag = padded 16 (key ++ (nonce ++ aad)) in
    omega (arith, length-append text tag, length-padded 16 (key ++ (nonce ++ aad)))

pub unseal-seal :
    (key nonce text aad : Bytes) → unseal key nonce (seal key nonce text aad) aad ≡ some text
unfolding unseal
unseal-seal key nonce text aad =
    let whole = length-seal key nonce text aad in
    let n : length text ≡ length (seal key nonce text aad) - 16 = omega arith in
    unfold seal in
    rw (
      drop-append _ text (padded 16 (key ++ (nonce ++ aad))) n,
      take-append _ text (padded 16 (key ++ (nonce ++ aad))) n,
      bytes_eq_refl (padded 16 (key ++ (nonce ++ aad))),
    )
