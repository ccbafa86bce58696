-- ===== src/Identity/Bounds.antt =====
-- The sizes in ParseIdentityPublic (identity.go): its slice expressions, and the key it returns.
use zwing.Base.{
  ◌+◌, ◌≡◌, refl, arith, Bytes, length, take, drop, zeros, copy_into, ◌==◌, ==→eq, le→ltb,
  Bool-cases, inl, inr, if◌then◌else◌, not, ok, err, and_then, invalid_public_identity_size,
}
use zwing.Base.{
  sym, ◌∙◌, ap, ok_inj, ok-ne-err, and_then-eq_ok, via_ok, length-zeros, length-copy_into,
}
use zwing.Platform.{Platform, ed25519_public_key_size, mldsa_public_key_size}
use zwing.Kem.{parse_xwing_public_key, xwing_public_key_size}
use zwing.Identity.{IdentityPublic, parse_identity_public, identity_public_size}

module _ (P : Platform) where
  -- ParseIdentityPublic without the tests that Go makes at a slice expression.
  pub parse_identity_public_eq :
      (bs : Bytes)
      → parse_identity_public P bs ≡ (
          let ed_pub =
            copy_into (zeros ed25519_public_key_size) (take ed25519_public_key_size bs) in
          let off = ed25519_public_key_size + mldsa_public_key_size in
          if not (length bs == identity_public_size)
          then err invalid_public_identity_size
          else and_then
              (P.mldsa_public_from_bytes
                (take mldsa_public_key_size (drop ed25519_public_key_size bs)))
              (λ dsa_pub.
                and_then
                  (parse_xwing_public_key P (take xwing_public_key_size (drop off bs)))
                  (λ xwing_pub.
                    ok (record { ed_pub = ed_pub; dsa_pub = dsa_pub; xwing_pub = xwing_pub }))))
  unfolding parse_identity_public and_then
  parse_identity_public_eq bs = elim (Bool-cases (length bs == identity_public_size)) [
    | inl whole ↦
        let size = ==→eq _ _ whole in
        let first = le→ltb (length bs) 32 (omega arith) in
        let second = le→ltb (length bs) 1984 (omega arith) in
        let third = le→ltb (length bs) 3200 (omega arith) in rw (whole, first, second, third) refl
    | inr other ↦ rw other refl
  ]

  -- A parsed Ed25519 key has its size.
  pub parse_identity_public-ed_pub :
      (bs : Bytes) (p : IdentityPublic P)
      → parse_identity_public P bs ≡ ok p
      → length p.ed_pub ≡ ed25519_public_key_size
  parse_identity_public-ed_pub bs p h0 =
      let h = sym (parse_identity_public_eq bs) ∙ h0 in
      elim (Bool-cases (length bs == identity_public_size)) [
        | inl whole ↦ elim (and_then-eq_ok _ _ (rw whole at h)) [
          | via_ok dsa e1 h1 ↦ elim (and_then-eq_ok _ _ h1) [
            | via_ok xwing e2 h2 ↦
                ap (λ (p : IdentityPublic P). length p.ed_pub) (sym (ok_inj h2))
                ∙ length-copy_into (zeros ed25519_public_key_size) _
                ∙ length-zeros ed25519_public_key_size
          ]
        ]
        | inr other ↦ absurd (ok-ne-err {e = invalid_public_identity_size} h (rw other refl))
      ]
