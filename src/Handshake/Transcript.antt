-- ===== src/Handshake/Transcript.antt =====
-- The bytes that the transcript hash takes (handshake.go).
use native.Mathlib.Nat.{mod-eq_of_lt}
use zwing.Base.{
  ℕ, ◌++◌, ◌%◌, ◌^◌, ◌<◌, ◌≡◌, refl, sym, ◌∙◌, arith, Bytes, length, put_be, length-put_be,
  put_be_inj, append_inj, ascii,
}
use zwing.Handshake.{transcript_input}

same_width : (a b : ℕ) → length (put_be 4 a) ≡ length (put_be 4 b)
same_width a b = length-put_be 4 a ∙ sym (length-put_be 4 b)

-- A field behind its length in four bytes.
field_inj :
    (xs ys xs' ys' : Bytes)
    → length xs < 2 ^ 32
    → length xs' < 2 ^ 32
    → put_be 4 (length xs % 2 ^ 32) ++ (xs ++ ys) ≡ put_be 4 (length xs' % 2 ^ 32) ++ (xs' ++ ys')
    → (xs ≡ xs') × (ys ≡ ys')
field_inj xs ys xs' ys' h h' e =
    let n = length xs % 2 ^ 32 in
    let n' = length xs' % 2 ^ 32 in
    let (heads, tails) = append_inj (put_be 4 n) (put_be 4 n') _ _ (same_width n n') e in
    let same : n ≡ n' = put_be_inj 4 n n' (omega arith) (omega arith) heads in
    append_inj xs xs' ys ys' (sym (mod-eq_of_lt h) ∙ same ∙ mod-eq_of_lt h') tails

-- For initiators below 4 GiB, equal inputs to the transcript hash are the same initiator and the
-- same ciphertext.
pub transcript_input_inj :
    (init init' ct ct' : Bytes)
    → length init < 2 ^ 32
    → length init' < 2 ^ 32
    → transcript_input init ct ≡ transcript_input init' ct'
    → (init ≡ init') × (ct ≡ ct')
unfolding transcript_input
transcript_input_inj init init' ct ct' h h' e =
    let label = ascii "lux.zwing.v1/transcript" in
    let n = length ct % 2 ^ 32 in
    let n' = length ct' % 2 ^ 32 in
    let (_, e1) = append_inj label label _ _ refl e in
    let (same, e2) = field_inj init (put_be 4 n ++ ct) init' (put_be 4 n' ++ ct') h h' e1 in
    (same, (append_inj (put_be 4 n) (put_be 4 n') ct ct' (same_width n n') e2).1)
