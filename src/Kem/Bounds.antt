-- ===== src/Kem/Bounds.antt =====
-- The slice expressions of kem.go are within bounds.
use zwing.Base.{
  ◌≡◌, refl, arith, Bytes, length, take, drop, zeros, copy_into, ◌==◌, ==→eq, le→ltb, Bool-cases,
  inl, inr, if◌then◌else◌, ok, err, and_then, invalid_xwing_public_key_size,
  invalid_xwing_ciphertext_size,
}
use zwing.Platform.{Platform, mlkem_public_key_size, mlkem_ciphertext_size}
use zwing.Kem.{
  XWingPrivateKey, parse_xwing_public_key, xwing_decapsulate, xwing_public_key_size,
  xwing_ciphertext_size, combine_xwing, zero_bytes,
}

module _ (P : Platform) where
  -- ParseXWingPublicKey without the tests that Go makes at a slice expression.
  pub parse_xwing_public_key_eq :
      (bs : Bytes)
      → parse_xwing_public_key P bs ≡ (
          if length bs == xwing_public_key_size
          then and_then (P.mlkem_public_from_bytes (take mlkem_public_key_size bs)) (λ mlkem_pk.
            ok (record {
              mlkem = mlkem_pk;
              x25519 = copy_into (zeros 32) (drop mlkem_public_key_size bs);
            }))
          else err invalid_xwing_public_key_size)
  unfolding parse_xwing_public_key and_then
  parse_xwing_public_key_eq bs = elim (Bool-cases (length bs == xwing_public_key_size)) [
    | inl whole ↦
        let size = ==→eq _ _ whole in
        let long = le→ltb (length bs) mlkem_public_key_size (omega arith) in rw (whole, long) refl
    | inr other ↦ rw other refl
  ]

  -- XWingDecapsulate without them.
  pub xwing_decapsulate_eq :
      (sk : XWingPrivateKey P) (ct : Bytes)
      → xwing_decapsulate P sk ct ≡ (
          if length ct == xwing_ciphertext_size
          then and_then (P.mlkem_decapsulate sk.mlkem_priv (take mlkem_ciphertext_size ct)) (λ ss_m.
            and_then (P.x25519 sk.x25519_priv (drop mlkem_ciphertext_size ct)) (λ ss_x. ok (record {
              shared = combine_xwing P ss_m ss_x (drop mlkem_ciphertext_size ct) sk.x25519_pub;
              ss_m = zero_bytes ss_m;
              ss_x = zero_bytes ss_x;
            })))
          else err invalid_xwing_ciphertext_size)
  unfolding xwing_decapsulate and_then
  xwing_decapsulate_eq sk ct = elim (Bool-cases (length ct == xwing_ciphertext_size)) [
    | inl whole ↦
        let size = ==→eq _ _ whole in
        let long = le→ltb (length ct) mlkem_ciphertext_size (omega arith) in rw (whole, long) refl
    | inr other ↦ rw other refl
  ]
