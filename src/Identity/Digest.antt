-- ===== src/Identity/Digest.antt =====
-- The bytes that identityDigest hashes (identity.go).
use native.Mathlib.Nat.{mod-eq_of_lt}
use zwing.Base.{
  ℕ, ◌%◌, ◌<◌, ◌≡◌, refl, sym, ap, ◌∙◌, ◌++◌, [], ◌∷◌, arith, Bytes, length, append_inj,
  append_assoc, length-append,
}
use zwing.Identity.{zwing_domain, digest_input}

-- With contexts of fewer than 256 bytes, equal inputs to the digest's hash are the same context
-- and the same message.
pub digest_input_inj :
    (ctx ctx' message message' : Bytes)
    → length ctx < 256
    → length ctx' < 256
    → digest_input ctx message ≡ digest_input ctx' message'
    → (ctx ≡ ctx') × (message ≡ message')
unfolding digest_input
digest_input_inj ctx ctx' message message' h h' e =
    let (_, e1) = append_inj zwing_domain zwing_domain _ _ refl e in
    let (n, e2) = append_inj (length ctx % 256 ∷ []) (length ctx' % 256 ∷ []) _ _ refl e1 in
    let same : length ctx ≡ length ctx' =
      sym (mod-eq_of_lt h) ∙ ap (λ l. first l) n ∙ mod-eq_of_lt h' in
    append_inj ctx ctx' message message' same e2
  where
    first : Bytes → ℕ
    first [] = 0
    first (x ∷ xs) = x

-- A context of 256 bytes more has the same length byte: what it adds may be moved to the message.
digest_input_wraps :
    (ctx extra message : Bytes)
    → length extra ≡ 256
    → digest_input (ctx ++ extra) message ≡ digest_input ctx (extra ++ message)
unfolding digest_input
digest_input_wraps ctx extra message h =
    let same : length (ctx ++ extra) % 256 ≡ length ctx % 256 =
      omega (arith, length-append ctx extra) in
    rw (same, append_assoc)
