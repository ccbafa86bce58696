-- ===== src/Kem/Keys.antt =====
-- X-Wing key pairs: what generation yields, and the wire form of the public half.
use zwing.Kem.Bounds.{parse_xwing_public_key_eq}
use zwing.Base.{◌≡◌, sym, subst, ap, ◌∙◌, ◌++◌, arith, Option}
use zwing.Base.{Bytes, length, length-append, take-append, drop-append}
use zwing.Base.{copy_into, copy_into-zeros, zeros}
use zwing.Base.{
  ok, or_nil, and_then, bind-eq_ok, via, bind_lift-eq_ok, via_lift, ok_inj, pure-eq_ok,
}
use zwing.Platform.{Platform, mlkem_public_key_size, point_size}
use zwing.Platform.Laws.{KemLaws, EntropyLaws}
use zwing.Kem.{XWingPublicKey, XWingPrivateKey, marshal_xwing, parse_xwing_public_key}
use zwing.Kem.{xwing_public_key_size, generate_xwing_key}

module _ (P : Platform) where
  -- The public point of a private key is that of its scalar.
  pub record IsKeyPair (sk : XWingPrivateKey P) : Type 0 where
    pub scalar : length sk.x25519_priv ≡ point_size
    pub point : P.x25519 sk.x25519_priv P.basepoint ≡ ok sk.x25519_pub

  parse_xwing_parts :
      (front back : Bytes) (mk : P.MlkemPublic)
      → length front ≡ mlkem_public_key_size
      → length back ≡ point_size
      → P.mlkem_public_from_bytes front ≡ ok mk
      → parse_xwing_public_key P (front ++ back) ≡ ok (record { mlkem = mk; x25519 = back })
  unfolding and_then
  parse_xwing_parts front back mk hf hb e = ground (
    arith,
    parse_xwing_public_key_eq P (front ++ back),
    length-append front back,
    take-append mlkem_public_key_size front back hf,
    drop-append mlkem_public_key_size front back hf,
    copy_into-zeros 32 back hb,
  )

  module _ (kem : KemLaws P) where
    pub length-x25519_pub : (sk : XWingPrivateKey P) → IsKeyPair sk → length sk.x25519_pub ≡ 32
    length-x25519_pub sk k = kem.x25519_length _ _ _ k.point

    pub length-marshal_xwing :
        (pk : XWingPublicKey P)
        → length pk.x25519 ≡ 32
        → length (marshal_xwing P pk) ≡ xwing_public_key_size
    unfolding marshal_xwing
    length-marshal_xwing pk h = omega (
      arith,
      length-append (P.mlkem_public_bytes pk.mlkem) pk.x25519,
      kem.mlkem_public_length pk.mlkem,
    )

    -- An X-Wing public key whose point has 32 bytes is parsed back from its wire form, if the
    -- libraries work.
    pub parse-marshal_xwing :
        (pk : XWingPublicKey P)
        → length pk.x25519 ≡ 32
        → parse_xwing_public_key P (marshal_xwing P pk) ≡ ok pk
    unfolding marshal_xwing
    parse-marshal_xwing pk h =
        parse_xwing_parts (P.mlkem_public_bytes pk.mlkem) pk.x25519 pk.mlkem
          (kem.mlkem_public_length pk.mlkem) h (kem.mlkem_public_parse pk.mlkem)

  drawn-IsKeyPair :
      KemLaws P
      → (mk : P.MlkemPrivate) (scalar point : Bytes) → length scalar ≡ point_size
      → or_nil (P.x25519 scalar P.basepoint) ≡ ok point
      → IsKeyPair (record {
        mlkem_priv = mk;
        x25519_priv = scalar;
        x25519_pub = copy_into (zeros 32) point;
      })
  drawn-IsKeyPair kem mk scalar point len e =
      let (u, eu) = kem.x25519_base scalar len in
      let same : u ≡ point = ok_inj (rw eu at e) in
      record {
        scalar = len;
        point =
            eu
            ∙ ap ok
                (same ∙ sym (copy_into-zeros 32 point (rw same at (kem.x25519_length _ _ _ eu))));
      }

  -- A key pair that GenerateXWingKey returns has a scalar of 32 bytes and its public point, if
  -- the libraries work.
  pub generate_xwing_key-IsKeyPair :
      KemLaws P
      → EntropyLaws P
      → (reader : Option P.Reader) (w w' : P.World) (sk : XWingPrivateKey P)
      → generate_xwing_key P reader w ≡ (ok sk, w')
      → IsKeyPair sk
  unfolding generate_xwing_key
  generate_xwing_key-IsKeyPair kem ent reader w w' sk h = elim (bind-eq_ok _ _ w h) [
    | via mk w1 _ h1 ↦ elim (bind-eq_ok _ _ w1 h1) [
      | via scalar w2 e2 h2 ↦ elim (bind_lift-eq_ok _ _ w2 h2) [
        | via_lift point e3 h3 ↦
            subst IsKeyPair (pure-eq_ok h3)
              (drawn-IsKeyPair kem mk scalar point (ent.entropy_length _ 32 w1 w2 scalar e2) e3)
      ]
    ]
  ]
