-- ===== src/Identity.antt =====
-- identity.go: long-term identities, their wire form and their signatures.
pub mod Bounds
pub mod Codec
pub mod WireForm
pub mod Digest
pub mod Signature
use zwing.Base.{ℕ, ◌+◌, ◌%◌, Bytes, Bool, true, false, ◌&&◌, not, Option, none, some, ◌++◌, ◌∷◌}
use zwing.Base.{slice_to, slice_from, slice_of}
use zwing.Base.{length, take, drop, copy_into, zeros, bytes_eq, ascii, ◌==◌, if◌then◌else◌}
use zwing.Base.{
  Proc, Outcome, ok, err, panic, public_key_length, and_then, proc_or_nil, ◌>>=◌, pure,
}
use zwing.Base.{invalid_public_identity_size, signature_invalid}
use zwing.Platform.{Platform, ed25519_public_key_size, ed25519_signature_size}
use zwing.Platform.{mldsa_public_key_size, mldsa_signature_size}
use zwing.Kem.{XWingPublicKey, XWingPrivateKey, xwing_public, xwing_public_key_size}
use zwing.Kem.{generate_xwing_key, marshal_xwing, parse_xwing_public_key}

abbrev pub zwing_domain : Bytes
zwing_domain = ascii "lux.zwing.v1"

abbrev pub identity_public_size : ℕ
identity_public_size = ed25519_public_key_size + mldsa_public_key_size + xwing_public_key_size

abbrev pub signature_size : ℕ
signature_size = ed25519_signature_size + mldsa_signature_size

-- What identityDigest hashes; the length of the context is one byte.
unfoldable pub digest_input : Bytes → Bytes → Bytes
digest_input ctx message = zwing_domain ++ ((length ctx % 256) ∷ (ctx ++ message))

module _ (P : Platform) where
  pub record Identity : Type 0 where
    pub ed_pub : Bytes
    pub ed_priv : Bytes
    pub dsa_priv : P.MldsaPrivate
    pub xwing : XWingPrivateKey P

  pub record IdentityPublic : Type 0 where
    pub ed_pub : Bytes
    pub dsa_pub : P.MldsaPublic
    pub xwing_pub : XWingPublicKey P

  unfoldable pub generate_identity_from : P.Reader → Proc P.World Identity
  generate_identity_from r = do
    (ed_pub, ed_priv) ← P.ed25519_generate r
    dsa_priv ← P.mldsa_generate r
    xwing ← generate_xwing_key P (some r)
    pure (record { ed_pub = ed_pub; ed_priv = ed_priv; dsa_priv = dsa_priv; xwing = xwing })

  unfoldable pub generate_identity : Proc P.World Identity
  generate_identity = generate_identity_from P.rand_reader

  -- Public
  abbrev pub public_of : Identity → IdentityPublic
  public_of id = record {
    ed_pub = id.ed_pub;
    dsa_pub = P.mldsa_public id.dsa_priv;
    xwing_pub = xwing_public P id.xwing;
  }

  unfoldable pub identity_digest : Bytes → Bytes → Bytes
  identity_digest ctx message = P.sha256 (digest_input ctx message)

  unfoldable pub sign : Identity → Bytes → Bytes → Proc P.World Bytes
  sign id ctx message = do
    let digest = identity_digest ctx message
    let ed_sig = P.ed25519_sign id.ed_priv digest
    dsa_sig ← proc_or_nil (P.mldsa_sign_ctx id.dsa_priv P.rand_reader digest zwing_domain)
    pure (ed_sig ++ dsa_sig)

  unfoldable pub verify : IdentityPublic → Bytes → Bytes → Bytes → Outcome (Unit {0})
  verify p ctx message signature =
      let digest = identity_digest ctx message in
      if not (length signature == signature_size)
      then err signature_invalid
      else and_then (slice_to signature ed25519_signature_size) (λ ed_sig.
        and_then (slice_from signature ed25519_signature_size) (λ dsa_sig.
          if not (length p.ed_pub == ed25519_public_key_size)
          then panic public_key_length
          else if not (P.ed25519_verify p.ed_pub digest ed_sig)
          then err signature_invalid
          else if not (P.mldsa_verify_ctx p.dsa_pub digest dsa_sig zwing_domain)
          then err signature_invalid
          else ok tt))

  -- MarshalBinary
  unfoldable pub marshal_identity : IdentityPublic → Bytes
  marshal_identity p = p.ed_pub ++ (P.mldsa_public_bytes p.dsa_pub ++ marshal_xwing P p.xwing_pub)

  -- The seam that a test can swap.
  abbrev parse_testable_dsa_pub : Bytes → Outcome P.MldsaPublic
  parse_testable_dsa_pub = P.mldsa_public_from_bytes

  unfoldable pub parse_identity_public : Bytes → Outcome IdentityPublic
  parse_identity_public bs =
      let off = ed25519_public_key_size + mldsa_public_key_size in
      if not (length bs == identity_public_size)
      then err invalid_public_identity_size
      else and_then (slice_to bs ed25519_public_key_size) (λ ed.
        and_then (slice_of bs ed25519_public_key_size mldsa_public_key_size) (λ dsa.
          and_then (parse_testable_dsa_pub dsa) (λ dsa_pub.
            and_then (slice_of bs off xwing_public_key_size) (λ xwing.
              and_then (parse_xwing_public_key P xwing) (λ xwing_pub. ok (record {
                ed_pub = copy_into (zeros ed25519_public_key_size) ed;
                dsa_pub = dsa_pub;
                xwing_pub = xwing_pub;
              }))))))

  -- Equal, on two pointers.
  unfoldable pub identity_equal : Option IdentityPublic → Option IdentityPublic → Bool
  identity_equal none other = false
  identity_equal (some p) none = false
  identity_equal (some p) (some other) =
      bytes_eq p.ed_pub other.ed_pub
      && (bytes_eq (P.mldsa_public_bytes p.dsa_pub) (P.mldsa_public_bytes other.dsa_pub)
          && bytes_eq (marshal_xwing P p.xwing_pub) (marshal_xwing P other.xwing_pub))
