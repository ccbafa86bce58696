-- ===== src/Base/BigEndian.antt =====
-- encoding/binary's BigEndian: `put_be k v` is the last `k` bytes of `v`, highest first.
use Prim.Native.Nat.{ℕ, zero, suc, ◌+◌, ◌*◌, ◌/◌, ◌%◌, ◌^◌, ◌<◌}
use mathlib.Core.Path.{◌≡◌, refl, sym, ap, ◌∙◌}
use mathlib.Core.List.{[], ◌∷◌, ◌++◌}
use native.Mathlib.Nat.{pow-suc}
use native.Mathlib.Omega.{arith}
use zwing.Base.Slice.{Bytes, length, length-append}

unfoldable pub put_be : ℕ → ℕ → Bytes
put_be zero v = []
put_be (suc k) v = put_be k (v / 256) ++ (v % 256 ∷ [])

-- The number that a slice spells, below the digits `acc` read before it.
unfoldable pub get_be : ℕ → Bytes → ℕ
get_be acc [] = acc
get_be acc (b ∷ bs) = get_be (acc * 256 + b) bs

pub length-put_be : (k v : ℕ) → length (put_be k v) ≡ k
unfolding put_be
length-put_be zero v = refl
length-put_be (suc k) v =
    omega (arith, length-append (put_be k (v / 256)) (v % 256 ∷ []), length-put_be k (v / 256))

get_be-append :
    (acc : ℕ) (bs : Bytes) (b : ℕ) → get_be acc (bs ++ (b ∷ [])) ≡ get_be acc bs * 256 + b
unfolding get_be
get_be-append acc [] b = refl
get_be-append acc (x ∷ bs) b = get_be-append (acc * 256 + x) bs b

pub get_be-put_be : (k v : ℕ) → v < 256 ^ k → get_be 0 (put_be k v) ≡ v
unfolding put_be
get_be-put_be zero v h = unfold get_be in omega arith
get_be-put_be (suc k) v h =
    get_be-append 0 (put_be k (v / 256)) (v % 256)
    ∙ omega (arith, get_be-put_be k (v / 256) (omega (arith, pow-suc 256 k)))

-- A field of `k` bytes tells numbers below 256 ^ k apart.
pub put_be_inj : (k v w : ℕ) → v < 256 ^ k → w < 256 ^ k → put_be k v ≡ put_be k w → v ≡ w
put_be_inj k v w hv hw e = sym (get_be-put_be k v hv) ∙ ap (get_be 0) e ∙ get_be-put_be k w hw
