-- ===== src/Identity/WireForm.antt =====
-- ParseIdentityPublic and the wire form (identity.go, kem.go): which byte strings it takes.
use zwing.Identity.Bounds.{parse_identity_public_eq}
use zwing.Kem.Bounds.{parse_xwing_public_key_eq}
use zwing.Base.{
  ◌≡◌, ◌↔◌, sym, subst, ap, ap₂, ◌∙◌, ◌++◌, arith, Bytes, length, length-take, length-drop, take,
  drop, take_all, take-append-drop, zeros, copy_into, copy_into-zeros, ok, ok_inj, and_then-eq_ok,
  via_ok, ◌==◌, ==→eq, Bool-cases, inl, inr, Error, err, drop-drop,
}
use zwing.Platform.{Platform}
use zwing.Platform.Laws.{KemLaws, SignatureLaws, EncodingLaws}
use zwing.Kem.{XWingPublicKey, marshal_xwing, parse_xwing_public_key}
use zwing.Identity.{IdentityPublic, marshal_identity, parse_identity_public}
use zwing.Identity.Codec.{IsSized, parse-marshal_identity}

err-ne-ok : {A : Type 0} {e : Error} {a : A} → ¬ (err e ≡ ok a)
err-ne-ok h = cc

three_parts : (bs : Bytes) → take 32 bs ++ (take 1952 (drop 32 bs) ++ drop 1984 bs) ≡ bs
three_parts bs =
    ap (λ r. take 32 bs ++ (take 1952 (drop 32 bs) ++ r)) (sym (drop-drop 1952 32 bs))
    ∙ ap (λ r. take 32 bs ++ r) (take-append-drop 1952 (drop 32 bs))
    ∙ take-append-drop 32 bs

module _ (P : Platform) where
  pub parse_identity_public-size :
      (bs : Bytes) (p : IdentityPublic P) → parse_identity_public P bs ≡ ok p → length bs ≡ 3200
  parse_identity_public-size bs p h0 =
      let h = sym (parse_identity_public_eq P bs) ∙ h0 in
      elim (Bool-cases (length bs == 3200)) [
        | inl sized ↦ ==→eq (length bs) 3200 sized
        | inr other ↦ absurd (err-ne-ok (rw other at h))
      ]

module _ (P : Platform) (encoding : EncodingLaws P) where
  marshal-parse_xwing :
      (bs : Bytes) (pk : XWingPublicKey P)
      → parse_xwing_public_key P bs ≡ ok pk
      → (marshal_xwing P pk ≡ bs) × (length pk.x25519 ≡ 32)
  unfolding marshal_xwing
  marshal-parse_xwing bs pk h0 =
      let h = sym (parse_xwing_public_key_eq P bs) ∙ h0 in
      elim (Bool-cases (length bs == 1216)) [
        | inl sized ↦ elim (and_then-eq_ok _ _ (rw sized at h)) [
          | via_ok mlkem e g ↦
              let size = ==→eq (length bs) 1216 sized in
              let point : copy_into (zeros 32) (drop 1184 bs) ≡ drop 1184 bs =
                copy_into-zeros 32 (drop 1184 bs) (omega (arith, length-drop 1184 bs)) in
              subst (λ (pk : XWingPublicKey P). (marshal_xwing P pk ≡ bs) × (length pk.x25519 ≡ 32))
                (ok_inj g)
                (
                  ap₂ (λ a b. a ++ b) (encoding.mlkem_public_bytes (take 1184 bs) mlkem e) point
                      ∙ take-append-drop 1184 bs,
                  ap length point ∙ omega (arith, length-drop 1184 bs),
                )
        ]
        | inr other ↦ absurd (err-ne-ok (rw other at h))
      ]

  marshal-parse_identity :
      (bs : Bytes) (p : IdentityPublic P)
      → parse_identity_public P bs ≡ ok p
      → IsSized P p × (marshal_identity P p ≡ bs)
  unfolding marshal_identity
  marshal-parse_identity bs p h0 =
      let h = sym (parse_identity_public_eq P bs) ∙ h0 in
      elim (Bool-cases (length bs == 3200)) [
        | inl sized ↦ elim (and_then-eq_ok _ _ (rw sized at h)) [
          | via_ok dsa e1 h1 ↦ elim (and_then-eq_ok _ _ h1) [
            | via_ok xw e2 h2 ↦
                let size = ==→eq (length bs) 3200 sized in
                let ed : copy_into (zeros 32) (take 32 bs) ≡ take 32 bs =
                  copy_into-zeros 32 (take 32 bs) (omega (arith, length-take 32 bs)) in
                let (whole, point) = marshal-parse_xwing (take 1216 (drop 1984 bs)) xw e2 in
                subst (λ p. IsSized P p × (marshal_identity P p ≡ bs)) (ok_inj h2)
                  (
                    record {
                      ed_pub = ap length ed ∙ omega (arith, length-take 32 bs);
                      x25519 = point;
                    },
                    ap₂ (λ a b. a ++ b) ed
                          (ap₂ (λ a b. a ++ b) (encoding.mldsa_public_bytes _ dsa e1)
                            (whole
                              ∙ take_all 1216 (drop 1984 bs) (omega (arith, length-drop 1984 bs))))
                        ∙ three_parts bs,
                  )
          ]
        ]
        | inr other ↦ absurd (err-ne-ok (rw other at h))
      ]

  -- If the libraries work, bytes are parsed as a public identity exactly when its fields have the
  -- right sizes and they are its wire form.
  pub parse_identity_public_iff :
      KemLaws P
      → SignatureLaws P
      → (bs : Bytes) (p : IdentityPublic P)
      → (parse_identity_public P bs ≡ ok p) ↔ (IsSized P p × (marshal_identity P p ≡ bs))
  parse_identity_public_iff kem signatures bs p = (
    marshal-parse_identity bs p,
    λ (sized, wire).
        ap (parse_identity_public P) (sym wire) ∙ parse-marshal_identity P kem signatures p sized,
  )
