-- ===== src/Platform.antt =====
-- The cryptographic libraries: luxfi/crypto (mlkem, mldsa, ed25519), golang.org/x/crypto
-- (curve25519, hkdf, chacha20poly1305) and crypto/{sha256,sha3}. None of them is code of the
-- repository: they are parameters, over a host. What proofs need of them is in Platform/Laws.
pub mod Laws
pub mod Duplex
use zwing.Base.{ℕ, ◌+◌, Bytes, Bool, Option, Proc, Outcome}
use zwing.Host.{Host}

-- The sizes that the libraries fix. The comments of kem.go and identity.go state them.
abbrev pub mlkem_public_key_size : ℕ
mlkem_public_key_size = 1184

abbrev pub mlkem_ciphertext_size : ℕ
mlkem_ciphertext_size = 1088

abbrev pub point_size : ℕ
point_size = 32

abbrev pub ed25519_public_key_size : ℕ
ed25519_public_key_size = 32

abbrev pub ed25519_signature_size : ℕ
ed25519_signature_size = 64

abbrev pub mldsa_public_key_size : ℕ
mldsa_public_key_size = 1952

abbrev pub mldsa_signature_size : ℕ
mldsa_signature_size = 3309

-- chacha20poly1305.KeySize and Overhead
abbrev pub chacha_key_size : ℕ
chacha_key_size = 32

abbrev pub chacha_overhead : ℕ
chacha_overhead = 16

pub record Platform : Type 1 where
  pub host : Host
  pub open host use *
  -- mlkem: GenerateKeyPair's private key, PublicKey(), Bytes(), PublicKeyFromBytes,
  -- Encapsulate's ciphertext and secret, Decapsulate
  pub MlkemPublic : Type 0
  pub MlkemPrivate : Type 0
  pub mlkem_generate : Reader → Proc World MlkemPrivate
  pub mlkem_public : MlkemPrivate → MlkemPublic
  pub mlkem_public_bytes : MlkemPublic → Bytes
  pub mlkem_public_from_bytes : Bytes → Outcome MlkemPublic
  pub mlkem_encapsulate : MlkemPublic → Reader → Proc World (Bytes × Bytes)
  pub mlkem_decapsulate : MlkemPrivate → Bytes → Outcome Bytes
  -- curve25519.X25519(scalar, point) and Basepoint
  pub x25519 : Bytes → Bytes → Outcome Bytes
  pub basepoint : Bytes
  -- the digest of all that was written to the hash
  pub sha256 : Bytes → Bytes
  pub sha3_256 : Bytes → Bytes
  -- the first bytes of hkdf.New(sha256.New, secret, nil, info), as many as are asked for
  pub hkdf_sha256 : Bytes → Bytes → ℕ → Bytes
  -- ed25519: GenerateKey's public and private key, Sign, Verify at a key of 32 bytes (at another
  -- it panics)
  pub ed25519_generate : Reader → Proc World (Bytes × Bytes)
  pub ed25519_sign : Bytes → Bytes → Bytes
  pub ed25519_verify : Bytes → Bytes → Bytes → Bool
  -- mldsa: GenerateKey, the field PublicKey, Bytes(), PublicKeyFromBytes,
  -- SignCtx(reader, digest, context), VerifySignatureCtx(digest, signature, context)
  pub MldsaPublic : Type 0
  pub MldsaPrivate : Type 0
  pub mldsa_generate : Reader → Proc World MldsaPrivate
  pub mldsa_public : MldsaPrivate → MldsaPublic
  pub mldsa_public_bytes : MldsaPublic → Bytes
  pub mldsa_public_from_bytes : Bytes → Outcome MldsaPublic
  pub mldsa_sign_ctx : MldsaPrivate → Reader → Bytes → Bytes → Proc World Bytes
  pub mldsa_verify_ctx : MldsaPublic → Bytes → Bytes → Bytes → Bool
  -- chacha20poly1305.New at a key of the right size; Seal and Open with nonce, text and
  -- associated data; `none` where Open returns an error
  pub Aead : Type 0
  pub chacha_new : Bytes → Aead
  pub aead_seal : Aead → Bytes → Bytes → Bytes → Bytes
  pub aead_open : Aead → Bytes → Bytes → Bytes → Option Bytes
