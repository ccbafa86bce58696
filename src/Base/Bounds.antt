-- ===== src/Base/Bounds.antt =====
-- Go's slice expressions, which panic where the bound is past the length.
use Prim.Native.Nat.{ℕ, ◌+◌}
use mathlib.Core.Path.{◌≡◌, refl}
use mathlib.Core.Bool.{false}
use zwing.Base.Tests.{ltb, if◌then◌else◌}
use zwing.Base.Slice.{Bytes, length, take, drop}
use zwing.Base.Failure.{Outcome, ok, panic, slice_bounds}

-- b[:n]
abbrev pub slice_to : Bytes → ℕ → Outcome Bytes
slice_to b n = if ltb (length b) n then panic slice_bounds else ok (take n b)

-- b[n:]
abbrev pub slice_from : Bytes → ℕ → Outcome Bytes
slice_from b n = if ltb (length b) n then panic slice_bounds else ok (drop n b)

-- b[i : i+n]
abbrev pub slice_of : Bytes → ℕ → ℕ → Outcome Bytes
slice_of b i n = if ltb (length b) (i + n) then panic slice_bounds else ok (take n (drop i b))

pub slice_to_ok : (b : Bytes) (n : ℕ) → ltb (length b) n ≡ false → slice_to b n ≡ ok (take n b)
slice_to_ok b n h = rw h refl

pub slice_from_ok : (b : Bytes) (n : ℕ) → ltb (length b) n ≡ false → slice_from b n ≡ ok (drop n b)
slice_from_ok b n h = rw h refl
