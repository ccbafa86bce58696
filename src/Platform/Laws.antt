-- ===== src/Platform/Laws.antt =====
-- What proofs assume of the libraries: the sizes and the correctness that their documentation
-- states. Nothing here says that an attacker fails.
use zwing.Base.{ℕ, ◌+◌, ◌≡◌, Bytes, true, length, some, ok}
use zwing.Base.Returns.{IsReturn, Returns}
use zwing.Platform.{Platform, mlkem_public_key_size, mlkem_ciphertext_size, point_size}
use zwing.Platform.{ed25519_public_key_size, ed25519_signature_size}
use zwing.Platform.{mldsa_public_key_size, mldsa_signature_size, chacha_overhead}

module _ (P : Platform) where
  -- A pair that ed25519.GenerateKey returned.
  abbrev pub IsEd25519Pair : Bytes → Bytes → Type 0
  IsEd25519Pair pub_key priv_key =
      (r : P.Reader) × (w : P.World) × (w' : P.World) × (P.ed25519_generate r w
        ≡ (ok (pub_key, priv_key), w'))

  -- io.ReadFull on an entropy source fills the buffer when it succeeds.
  pub record EntropyLaws : Type 0 where
    pub entropy_length :
        (r : P.Reader) (n : ℕ) (w w' : P.World) (bs : Bytes)
        → P.entropy_read_full r n w ≡ (ok bs, w')
        → length bs ≡ n

  pub record KemLaws : Type 0 where
    pub mlkem_public_length :
        (pk : P.MlkemPublic) → length (P.mlkem_public_bytes pk) ≡ mlkem_public_key_size
    pub mlkem_public_parse :
        (pk : P.MlkemPublic) → P.mlkem_public_from_bytes (P.mlkem_public_bytes pk) ≡ ok pk
    -- a secret that was encapsulated to a key is what that key decapsulates
    pub mlkem_correct :
        (sk : P.MlkemPrivate) (r : P.Reader) (w w' : P.World) (ct secret : Bytes)
        → P.mlkem_encapsulate (P.mlkem_public sk) r w ≡ (ok (ct, secret), w')
        → (length ct ≡ mlkem_ciphertext_size) × (P.mlkem_decapsulate sk ct ≡ ok secret)
    pub x25519_length : (k u s : Bytes) → P.x25519 k u ≡ ok s → length s ≡ point_size
    -- a scalar of 32 bytes has a public point, and agrees with any other on a secret
    pub x25519_base :
        (k : Bytes) → length k ≡ point_size → (u : Bytes) × (P.x25519 k P.basepoint ≡ ok u)
    pub x25519_agree :
        (a b u v : Bytes)
        → length a ≡ point_size
        → length b ≡ point_size
        → P.x25519 a P.basepoint ≡ ok u
        → P.x25519 b P.basepoint ≡ ok v
        → (s : Bytes) × (P.x25519 a v ≡ ok s) × (P.x25519 b u ≡ ok s)

  pub record SignatureLaws : Type 0 where
    pub ed25519_public_length :
        (pub_key priv_key : Bytes)
        → IsEd25519Pair pub_key priv_key
        → length pub_key ≡ ed25519_public_key_size
    pub ed25519_correct :
        (pub_key priv_key digest : Bytes)
        → IsEd25519Pair pub_key priv_key
        → (length (P.ed25519_sign priv_key digest) ≡ ed25519_signature_size)
          × (P.ed25519_verify pub_key digest (P.ed25519_sign priv_key digest) ≡ true)
    pub mldsa_public_length :
        (pk : P.MldsaPublic) → length (P.mldsa_public_bytes pk) ≡ mldsa_public_key_size
    pub mldsa_public_parse :
        (pk : P.MldsaPublic) → P.mldsa_public_from_bytes (P.mldsa_public_bytes pk) ≡ ok pk
    -- what signing returns verifies
    pub mldsa_correct :
        (sk : P.MldsaPrivate) (r : P.Reader) (digest ctx sig : Bytes) (w w' : P.World)
        → P.mldsa_sign_ctx sk r digest ctx w ≡ (ok sig, w')
        → (length sig ≡ mldsa_signature_size)
          × (P.mldsa_verify_ctx (P.mldsa_public sk) digest sig ctx ≡ true)

  -- A key that was parsed is written as the bytes that it was parsed from: FIPS 203's check of
  -- encapsulation keys, and FIPS 204's encoding of public keys.
  pub record EncodingLaws : Type 0 where
    pub mlkem_public_bytes :
        (bs : Bytes) (pk : P.MlkemPublic)
        → P.mlkem_public_from_bytes bs ≡ ok pk
        → P.mlkem_public_bytes pk ≡ bs
    pub mldsa_public_bytes :
        (bs : Bytes) (pk : P.MldsaPublic)
        → P.mldsa_public_from_bytes bs ≡ ok pk
        → P.mldsa_public_bytes pk ≡ bs

  pub record AeadLaws : Type 0 where
    pub seal_length :
        (a : P.Aead) (nonce text aad : Bytes)
        → length (P.aead_seal a nonce text aad) ≡ length text + chacha_overhead
    pub open-seal :
        (a : P.Aead) (nonce text aad : Bytes)
        → P.aead_open a nonce (P.aead_seal a nonce text aad) aad ≡ some text

  -- The parts that may fail for want of entropy do not.
  pub record IsSupplied : Type 0 where
    pub entropy_ok :
        (r : P.Reader) (n : ℕ) (w : P.World)
        → (bs : Bytes) × (w' : P.World) × (P.entropy_read_full r n w ≡ (ok bs, w'))
    pub encapsulate_ok :
        (pk : P.MlkemPublic) (r : P.Reader) (w : P.World)
        → (c : Bytes × Bytes) × (w' : P.World) × (P.mlkem_encapsulate pk r w ≡ (ok c, w'))
    pub sign_ok :
        (sk : P.MldsaPrivate) (r : P.Reader) (digest ctx : Bytes) (w : P.World)
        → (sig : Bytes) × (w' : P.World) × (P.mldsa_sign_ctx sk r digest ctx w ≡ (ok sig, w'))

  -- The parts that the handshake calls return, with an error if they must.
  pub record IsPanicFree : Type 0 where
    pub mlkem_public_from_bytes : (bs : Bytes) → IsReturn (P.mlkem_public_from_bytes bs)
    pub mlkem_encapsulate : (pk : P.MlkemPublic) (r : P.Reader) → Returns (P.mlkem_encapsulate pk r)
    pub mlkem_decapsulate :
        (sk : P.MlkemPrivate) (ct : Bytes) → IsReturn (P.mlkem_decapsulate sk ct)
    pub x25519 : (k u : Bytes) → IsReturn (P.x25519 k u)
    pub mldsa_public_from_bytes : (bs : Bytes) → IsReturn (P.mldsa_public_from_bytes bs)
    pub mldsa_sign_ctx :
        (sk : P.MldsaPrivate) (r : P.Reader) (digest ctx : Bytes)
        → Returns (P.mldsa_sign_ctx sk r digest ctx)
    pub entropy_read_full : (r : P.Reader) (n : ℕ) → Returns (P.entropy_read_full r n)
    pub conn_read_full : (c : P.RawConn) (n : ℕ) → Returns (P.conn_read_full c n)
    pub conn_write : (c : P.RawConn) (bs : Bytes) → Returns (P.conn_write c bs)
