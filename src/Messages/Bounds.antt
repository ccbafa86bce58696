-- ===== src/Messages/Bounds.antt =====
-- sliceReader (handshake.go): its slice expressions are within bounds.
use zwing.Base.{
  false, ℕ, ◌≡◌, refl, ap, ◌∙◌, Bytes, length, take, drop, get_be, ltb, Bool-cases, inl, inr,
  if◌then◌else◌, ok, err, short_read, bind_ok, slice_to_ok, slice_from_ok,
}
use zwing.Messages.{cut, read_u16, read_n}

cut_ok :
    (n : ℕ) (buf : Bytes) → ltb (length buf) n ≡ false → cut n buf ≡ (ok (take n buf), drop n buf)
cut_ok n buf h =
    bind_ok _ _ buf (ap (λ o. (o, buf)) (slice_to_ok buf n h))
    ∙ bind_ok _ _ buf (ap (λ o. (o, buf)) (slice_from_ok buf n h))

-- readN and readU16 without the tests that Go makes at a slice expression.
pub read_n_eq :
    (n : ℕ) (buf : Bytes)
    → read_n n buf
      ≡ (if ltb (length buf) n then (err short_read, buf) else (ok (take n buf), drop n buf))
unfolding read_n
read_n_eq n buf = elim (Bool-cases (ltb (length buf) n)) [
  | inl short ↦ rw short refl
  | inr enough ↦ rw (enough, read_n) (cut_ok n buf enough)
]

pub read_u16_eq :
    (buf : Bytes)
    → read_u16 buf ≡ (
        if ltb (length buf) 2
        then (err short_read, buf)
        else (ok (get_be 0 (take 2 buf)), drop 2 buf))
unfolding read_u16
read_u16_eq buf = elim (Bool-cases (ltb (length buf) 2)) [
  | inl short ↦ rw short refl
  | inr enough ↦ rw (enough, read_u16) (bind_ok _ _ buf (cut_ok 2 buf enough))
]
