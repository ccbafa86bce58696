-- ===== src/Kem.antt =====
-- kem.go: the X-Wing KEM over ML-KEM-768 and X25519.
pub mod Keys
pub mod Agreement
pub mod Combiner
pub mod Bounds
use zwing.Base.{slice_to, slice_from}
use zwing.Base.{ℕ, ◌+◌, Bytes, Option, none, some, ◌++◌, [], ◌∷◌, length, take, drop, ◌==◌}
use zwing.Base.{copy_into, zeros, if◌then◌else◌}
use zwing.Base.{Proc, Outcome, ok, err, and_then, or_nil, ◌>>=◌, pure, lift}
use zwing.Base.{invalid_xwing_public_key_size, invalid_xwing_ciphertext_size}
use zwing.Platform.{Platform, mlkem_public_key_size, mlkem_ciphertext_size, point_size}

-- The label "\./" and the name "X-Wing", in ASCII.
abbrev pub xwing_label_prefix : Bytes
xwing_label_prefix = 0x5c ∷ b'.' ∷ b'/' ∷ []

abbrev pub xwing_label_name : Bytes
xwing_label_name = b'X' ∷ b'-' ∷ b'W' ∷ b'i' ∷ b'n' ∷ b'g' ∷ []

abbrev pub xwing_public_key_size : ℕ
xwing_public_key_size = mlkem_public_key_size + point_size

abbrev pub xwing_ciphertext_size : ℕ
xwing_ciphertext_size = mlkem_ciphertext_size + point_size

abbrev pub xwing_shared_size : ℕ
xwing_shared_size = 32

-- zero: the slice afterwards.
unfoldable pub zero_bytes : Bytes → Bytes
zero_bytes [] = []
zero_bytes (b ∷ bs) = 0 ∷ zero_bytes bs

-- What the combiner hashes.
abbrev pub combiner_input : Bytes → Bytes → Bytes → Bytes → Bytes
combiner_input ss_m ss_x ct_x pk_x =
    xwing_label_prefix ++ (xwing_label_name ++ (ss_m ++ (ss_x ++ (ct_x ++ pk_x))))

module _ (P : Platform) where
  pub record XWingPublicKey : Type 0 where
    pub mlkem : P.MlkemPublic
    pub x25519 : Bytes

  pub record XWingPrivateKey : Type 0 where
    pub mlkem_priv : P.MlkemPrivate
    pub x25519_priv : Bytes
    pub x25519_pub : Bytes

  -- Public
  abbrev pub xwing_public : XWingPrivateKey → XWingPublicKey
  xwing_public sk = record { mlkem = P.mlkem_public sk.mlkem_priv; x25519 = sk.x25519_pub }

  -- MarshalBinary
  unfoldable pub marshal_xwing : XWingPublicKey → Bytes
  marshal_xwing pk = P.mlkem_public_bytes pk.mlkem ++ pk.x25519

  unfoldable pub parse_xwing_public_key : Bytes → Outcome XWingPublicKey
  parse_xwing_public_key bs =
      if length bs == xwing_public_key_size
      then and_then (slice_to bs mlkem_public_key_size) (λ front.
        and_then (P.mlkem_public_from_bytes front) (λ mlkem_pk.
          and_then (slice_from bs mlkem_public_key_size)
            (λ back. ok (record { mlkem = mlkem_pk; x25519 = copy_into (zeros 32) back }))))
      else err invalid_xwing_public_key_size

  -- `if reader == nil { reader = rand.Reader }`
  abbrev pub reader_or_rand : Option P.Reader → P.Reader
  reader_or_rand none = P.rand_reader
  reader_or_rand (some r) = r

  unfoldable pub generate_xwing_key : Option P.Reader → Proc P.World XWingPrivateKey
  generate_xwing_key reader = do
    let r = reader_or_rand reader
    mlkem_priv ← P.mlkem_generate r
    scalar ← P.entropy_read_full r 32
    pub_point ← lift (or_nil (P.x25519 scalar P.basepoint))
    pure (record {
      mlkem_priv = mlkem_priv;
      x25519_priv = scalar;
      x25519_pub = copy_into (zeros 32) pub_point;
    })

  -- The combiner: the digest, copied into an array of 32 bytes.
  unfoldable pub combine_xwing : Bytes → Bytes → Bytes → Bytes → Bytes
  combine_xwing ss_m ss_x ct_x pk_x =
      copy_into (zeros xwing_shared_size) (P.sha3_256 (combiner_input ss_m ss_x ct_x pk_x))

  -- What XWingEncapsulate returns, and its secret buffers as it leaves them.
  pub record Encapsulation : Type 0 where
    pub ciphertext : Bytes
    pub shared : Bytes
    pub eph_priv : Bytes
    pub ss_m : Bytes
    pub ss_x : Bytes

  unfoldable pub xwing_encapsulate : Option P.Reader → XWingPublicKey → Proc P.World Encapsulation
  xwing_encapsulate reader recipient = do
    let r = reader_or_rand reader
    (mlkem_ct, ss_m) ← P.mlkem_encapsulate recipient.mlkem r
    eph_priv ← P.entropy_read_full r 32
    eph_pub ← lift (or_nil (P.x25519 eph_priv P.basepoint))
    ss_x ← lift (P.x25519 eph_priv recipient.x25519)
    pure (record {
      ciphertext = mlkem_ct ++ eph_pub;
      shared = combine_xwing ss_m ss_x eph_pub recipient.x25519;
      eph_priv = zero_bytes eph_priv;
      ss_m = zero_bytes ss_m;
      ss_x = zero_bytes ss_x;
    })

  -- What XWingDecapsulate returns, and its secret buffers as it leaves them.
  pub record Decapsulation : Type 0 where
    pub shared : Bytes
    pub ss_m : Bytes
    pub ss_x : Bytes

  unfoldable pub xwing_decapsulate : XWingPrivateKey → Bytes → Outcome Decapsulation
  xwing_decapsulate sk ciphertext =
      if length ciphertext == xwing_ciphertext_size
      then and_then (slice_to ciphertext mlkem_ciphertext_size) (λ mlkem_ct.
        and_then (slice_from ciphertext mlkem_ciphertext_size) (λ eph_pub.
          and_then (P.mlkem_decapsulate sk.mlkem_priv mlkem_ct) (λ ss_m.
            and_then (P.x25519 sk.x25519_priv eph_pub) (λ ss_x. ok (record {
              shared = combine_xwing ss_m ss_x eph_pub sk.x25519_pub;
              ss_m = zero_bytes ss_m;
              ss_x = zero_bytes ss_x;
            })))))
      else err invalid_xwing_ciphertext_size
