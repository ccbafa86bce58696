-- ===== src/Base/Text.antt =====
-- `[]byte(s)` of an ASCII string.
use Prim.Native.Char.{code}
use Prim.Native.String.{String}
use mathlib.Core.List.{[], ◌∷◌}
use zwing.Base.Slice.{Bytes}

abbrev pub ascii : String → Bytes
ascii String.[] = []
ascii (String.◌∷◌ c s) = code c ∷ ascii s
