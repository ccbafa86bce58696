-- ===== src/Messages/Reading.antt =====
-- sliceReader (handshake.go): each read beside the write that matches it.
use zwing.Base.{ℕ, ◌%◌, ◌/◌, ◌≤◌, ◌≡◌, refl, sym, ap, ◌∙◌, ◌++◌, [], ◌∷◌, arith}
use zwing.Base.{
  Bytes, IsByte, All, length, length-append, take, drop, take-append, drop-append, take-append-drop,
}
use zwing.Base.{get_be, le→ltb, length-take}
use zwing.Base.{Proc, ok, ◌>>=◌, bind_ok, append_assoc, append-nil}
use zwing.Messages.Bounds.{read_n_eq, read_u16_eq}
use zwing.Messages.{append_u16, SliceReader, read_u16, read_n, at_end}

abbrev pub u16_bytes : ℕ → Bytes
u16_bytes n = n / 256 % 256 ∷ n % 256 ∷ []

-- A field of a message: its length in two bytes, and its bytes.
abbrev pub field : Bytes → Bytes
field bs = u16_bytes (length bs) ++ bs

abbrev pub IsU16 : ℕ → Type 0
IsU16 n = n ≤ 0xFFFF

pub append_u16_ok : (b : Bytes) (n : ℕ) → IsU16 n → append_u16 b n ≡ ok (b ++ u16_bytes n)
unfolding append_u16
append_u16_ok b n h = rw (le→ltb _ _ h)

pub read_u16_lem : (n : ℕ) (rest : Bytes) → IsU16 n → read_u16 (u16_bytes n ++ rest) ≡ (ok n, rest)
unfolding take drop get_be
read_u16_lem n rest h =
    rw (read_u16_eq (u16_bytes n ++ rest), le→ltb (length (u16_bytes n ++ rest)) 2 (omega arith))
      (ap (λ k. (ok k, rest)) (omega arith))

pub read_n_lem : (xs rest : Bytes) → read_n (length xs) (xs ++ rest) ≡ (ok xs, rest)
read_n_lem xs rest = rw (
  read_n_eq (length xs) (xs ++ rest),
  le→ltb (length (xs ++ rest)) (length xs) (omega (arith, length-append xs rest)),
  take-append (length xs) xs rest refl,
  drop-append (length xs) xs rest refl,
)

pub at_end_lem : {A : Type 0} (a : A) → at_end a [] ≡ (ok a, [])
unfolding at_end
at_end_lem a = refl

-- The body of parseHandshakeInit and of splitRespIDPayload.
unfoldable pub read_two : {A : Type 0} → (Bytes → Bytes → A) → Proc SliceReader A
read_two f = do n ← read_u16; xs ← read_n n; m ← read_u16; ys ← read_n m; at_end (f xs ys)

pub read_two_lem :
    {A : Type 0} (f : Bytes → Bytes → A) (xs ys : Bytes)
    → IsU16 (length xs)
    → IsU16 (length ys)
    → read_two f (field xs ++ field ys) ≡ (ok (f xs ys), [])
unfolding read_two
read_two_lem f xs ys hx hy =
    let tail : Bytes = xs ++ field ys in
    ap (λ b. read_two f b) (append_assoc (u16_bytes (length xs)) xs (field ys))
    ∙ bind_ok _ _ _ (read_u16_lem (length xs) tail hx)
    ∙ bind_ok _ _ _ (read_n_lem xs (field ys))
    ∙ bind_ok _ _ _ (read_u16_lem (length ys) ys hy)
    ∙ bind_ok _ _ _ (ap (λ b. read_n (length ys) b) (sym (append-nil ys)) ∙ read_n_lem ys [])
    ∙ at_end_lem (f xs ys)

-- What a read of two bytes took off the front, if those were bytes.
pub read_u16-eq_ok :
    (buf rest : Bytes) (n : ℕ)
    → read_u16 buf ≡ (ok n, rest)
    → All IsByte buf
    → (buf ≡ u16_bytes n ++ rest) × IsU16 n × All IsByte rest
unfolding take drop get_be
read_u16-eq_ok [] rest n e a = ground (arith, read_u16_eq [])
read_u16-eq_ok (x ∷ []) rest n e a = ground (arith, read_u16_eq (x ∷ []))
read_u16-eq_ok (x ∷ y ∷ buf) rest n e a = ground (arith, read_u16_eq (x ∷ y ∷ buf))

pub read_n-eq_ok :
    (n : ℕ) (buf xs rest : Bytes)
    → read_n n buf ≡ (ok xs, rest)
    → (buf ≡ xs ++ rest) × (length xs ≡ n)
read_n-eq_ok n buf xs rest e =
    ground (arith, read_n_eq n buf, take-append-drop n buf, length-take n buf)

pub at_end-eq_ok :
    {A : Type 0} (a b : A) (buf rest : Bytes) → at_end a buf ≡ (ok b, rest) → (buf ≡ []) × (a ≡ b)
unfolding at_end
at_end-eq_ok a b [] rest e = ground arith
at_end-eq_ok a b (x ∷ buf) rest e = ground arith
