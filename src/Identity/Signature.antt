-- ===== src/Identity/Signature.antt =====
-- Sign and Verify (identity.go).
use zwing.Base.{◌≡◌, sym, ◌∙◌, ◌↔◌, inl, inr, Error, ok-ne-err, err_inj, ap, ◌++◌, arith, true, ◌⊎◌}
use zwing.Base.{Bytes, length, length-append, take, drop, take-append, drop-append, eq→==}
use zwing.Base.{
  ok, err, or_nil, bind_ok, and_then, ◌==◌, ==→eq, le→ltb, Bool-cases, not, if◌then◌else◌, refl,
}
use zwing.Base.{signature_invalid, panic, public_key_length}
use zwing.Platform.{Platform, ed25519_signature_size, ed25519_public_key_size}
use zwing.Platform.Laws.{SignatureLaws, IsSupplied}
use zwing.Identity.{Identity, IdentityPublic, public_of, sign, verify, signature_size, zwing_domain}
use zwing.Identity.{identity_digest}
use zwing.Identity.Codec.{IsSound}

module _ (P : Platform) where
  -- What `verify` demands: both signatures, over one digest.
  pub record IsSigned (p : IdentityPublic P) (ctx message signature : Bytes) : Type 0 where
    pub size : length signature ≡ signature_size
    pub key : length p.ed_pub ≡ ed25519_public_key_size
    pub classical :
        P.ed25519_verify p.ed_pub
          (identity_digest P ctx message)
          (take ed25519_signature_size signature)
        ≡ true
    pub post_quantum :
        P.mldsa_verify_ctx p.dsa_pub
          (identity_digest P ctx message)
          (drop ed25519_signature_size signature)
          zwing_domain
        ≡ true

  -- Verify without the tests that Go makes at a slice expression.
  verify_eq :
      (p : IdentityPublic P) (ctx message signature : Bytes)
      → let digest = identity_digest P ctx message in
        verify P p ctx message signature ≡ (
          if not (length signature == signature_size)
          then err signature_invalid
          else if not (length p.ed_pub == ed25519_public_key_size)
          then panic public_key_length
          else if not (P.ed25519_verify p.ed_pub digest (take ed25519_signature_size signature))
          then err signature_invalid
          else if not (
              P.mldsa_verify_ctx p.dsa_pub digest
                (drop ed25519_signature_size signature)
                zwing_domain)
          then err signature_invalid
          else ok tt)
  unfolding verify and_then
  verify_eq p ctx message signature = elim (Bool-cases (length signature == signature_size)) [
    | inl whole ↦
        let size = ==→eq _ _ whole in
        let long = le→ltb (length signature) ed25519_signature_size (omega arith) in
        rw (whole, long) refl
    | inr other ↦ rw other refl
  ]

  -- A signature is accepted only if the Ed25519 key has 32 bytes, it has 3373 bytes and both its Ed25519 half and its ML-DSA
  -- half verify over the digest of the context and the message.
  pub verify-IsSigned :
      (p : IdentityPublic P) (ctx message signature : Bytes)
      → verify P p ctx message signature ≡ ok tt
      → IsSigned p ctx message signature
  verify-IsSigned p ctx message signature h = ground (arith, verify_eq p ctx message signature)

  verify_ok :
      (p : IdentityPublic P) (ctx message signature : Bytes)
      → IsSigned p ctx message signature
      → verify P p ctx message signature ≡ ok tt
  verify_ok p ctx message signature s = rw (
    verify_eq p ctx message signature,
    eq→== _ _ s.size,
    eq→== _ _ s.key,
    s.classical,
    s.post_quantum,
  )

  -- Under a key of 32 bytes there is one way to refuse.
  pub verify_cases :
      (p : IdentityPublic P) (ctx message signature : Bytes)
      → length p.ed_pub ≡ ed25519_public_key_size
      → (verify P p ctx message signature ≡ ok tt)
        ⊎ (verify P p ctx message signature ≡ err signature_invalid)
  verify_cases p ctx message signature key =
      ground (arith, verify_eq p ctx message signature, eq→== _ _ key)

  module _ (signatures : SignatureLaws P) where
    signed_parts :
        (id : Identity P) (ctx message dsa_sig : Bytes) (w w' : P.World)
        → IsSound P id
        → P.mldsa_sign_ctx id.dsa_priv P.rand_reader (identity_digest P ctx message) zwing_domain w
          ≡ (ok dsa_sig, w')
        → IsSigned
            (public_of P id)
            ctx
            message
            (P.ed25519_sign id.ed_priv (identity_digest P ctx message) ++ dsa_sig)
    signed_parts id ctx message dsa_sig w w' s e =
        let digest = identity_digest P ctx message in
        let ed_sig = P.ed25519_sign id.ed_priv digest in
        let (ed_len, ed_ok) = signatures.ed25519_correct _ _ digest s.ed25519 in
        let (dsa_len, dsa_ok) =
          signatures.mldsa_correct id.dsa_priv P.rand_reader digest zwing_domain dsa_sig w w' e in
        record {
          size = omega (arith, length-append ed_sig dsa_sig);
          key = signatures.ed25519_public_length id.ed_pub id.ed_priv s.ed25519;
          classical = rw (take-append 64 ed_sig dsa_sig ed_len) ed_ok;
          post_quantum = rw (drop-append 64 ed_sig dsa_sig ed_len) dsa_ok;
        }

    -- With entropy at hand a sound identity signs, and its public half accepts the signature, of
    -- 3373 bytes, for that context and message, if the libraries work.
    pub verify-sign :
        IsSupplied P
        → (id : Identity P) (ctx message : Bytes) (w : P.World) → IsSound P id
        → (sig : Bytes) × (w' : P.World) × (sign P id ctx message w ≡ (ok sig, w'))
          × (length sig ≡ signature_size)
          × (verify P (public_of P id) ctx message sig ≡ ok tt)
    unfolding sign
    verify-sign sup id ctx message w s =
        let digest = identity_digest P ctx message in
        let (dsa_sig, w1, e) = sup.sign_ok id.dsa_priv P.rand_reader digest zwing_domain w in
        let signed = signed_parts id ctx message dsa_sig w w1 s e in
        (
          _,
          w1,
          bind_ok _ _ w (ap (λ p. (or_nil p.0, p.1)) e),
          signed.size,
          verify_ok _ ctx message _ signed,
        )

module _ (P : Platform) (p : IdentityPublic P) (ctx message sig : Bytes) where
  -- A signature is accepted exactly when the Ed25519 key has 32 bytes, it has 3373 bytes and both
  -- its Ed25519 half and its ML-DSA half verify over the digest of the context and the message.
  pub verify_iff : (verify P p ctx message sig ≡ ok tt) ↔ IsSigned P p ctx message sig
  verify_iff = (verify-IsSigned P p ctx message sig, verify_ok P p ctx message sig)

  -- Under an Ed25519 key of 32 bytes, Verify fails exactly when the signature is not one of both keys, and then with
  -- ErrSignatureInvalid.
  pub verify_err_iff :
      (e : Error)
      → length p.ed_pub ≡ ed25519_public_key_size
      → (verify P p ctx message sig ≡ err e)
        ↔ ((¬ IsSigned P p ctx message sig) × (e ≡ signature_invalid))
  verify_err_iff e key = (
    λ h. (
      λ signed. ok-ne-err (verify_ok P p ctx message sig signed) h,
      elim (verify_cases P p ctx message sig key) [
        | inl fine ↦ absurd (ok-ne-err fine h)
        | inr bad ↦ err_inj (sym h ∙ bad)
      ],
    ),
    λ (unsigned, is). elim (verify_cases P p ctx message sig key) [
      | inl fine ↦ absurd (unsigned (verify-IsSigned P p ctx message sig fine))
      | inr bad ↦ bad ∙ ap err (sym is)
    ],
  )
