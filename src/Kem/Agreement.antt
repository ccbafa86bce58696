-- ===== src/Kem/Agreement.antt =====
-- Encapsulation and decapsulation (kem.go): the secrets of both sides, failures and buffers.
use zwing.Kem.Bounds.{xwing_decapsulate_eq}
use zwing.Base.{◌≡◌, refl, sym, subst, ap, ◌∙◌, ◌++◌, [], ◌∷◌, arith, Option}
use zwing.Base.{Bytes, length, length-append, take-append, drop-append, zeros, replicate}
use zwing.Base.{length-copy_into, length-zeros, ok, or_nil, and_then, ok_inj}
use zwing.Base.{bind_ok, bind_lift_ok, bind-eq_ok, via, bind_lift-eq_ok, via_lift, pure-eq_ok}
use zwing.Platform.{Platform, mlkem_ciphertext_size, point_size}
use zwing.Platform.Laws.{KemLaws, EntropyLaws, IsSupplied}
use zwing.Kem.{XWingPublicKey, XWingPrivateKey, xwing_public, zero_bytes, reader_or_rand}
use zwing.Kem.{xwing_ciphertext_size, xwing_shared_size, combine_xwing}
use zwing.Kem.{Encapsulation, Decapsulation, xwing_encapsulate, xwing_decapsulate}
use zwing.Kem.Keys.{IsKeyPair}

pub zero_bytes-zeros : (bs : Bytes) → zero_bytes bs ≡ zeros (length bs)
unfolding zero_bytes zeros replicate
zero_bytes-zeros [] = refl
zero_bytes-zeros (b ∷ bs) = ap (λ r. 0 ∷ r) (zero_bytes-zeros bs)

module _ (P : Platform) where
  length-combine_xwing :
      (ss_m ss_x ct_x pk_x : Bytes)
      → length (combine_xwing P ss_m ss_x ct_x pk_x) ≡ xwing_shared_size
  unfolding combine_xwing
  length-combine_xwing ss_m ss_x ct_x pk_x = length-copy_into (zeros 32) _ ∙ length-zeros 32

  -- What a ciphertext in two parts decapsulates to.
  decapsulate_parts :
      (sk : XWingPrivateKey P) (ct point ss_m ss_x : Bytes)
      → length ct ≡ mlkem_ciphertext_size
      → length point ≡ point_size
      → P.mlkem_decapsulate sk.mlkem_priv ct ≡ ok ss_m
      → P.x25519 sk.x25519_priv point ≡ ok ss_x
      → xwing_decapsulate P sk (ct ++ point)
        ≡ ok (record {
          shared = combine_xwing P ss_m ss_x point sk.x25519_pub;
          ss_m = zero_bytes ss_m;
          ss_x = zero_bytes ss_x;
        })
  unfolding and_then
  decapsulate_parts sk ct point ss_m ss_x hc hp em ex = ground (
    arith,
    xwing_decapsulate_eq P sk (ct ++ point),
    length-append ct point,
    take-append mlkem_ciphertext_size ct point hc,
    drop-append mlkem_ciphertext_size ct point hc,
  )

  -- The two sides of one exchange.
  pub record Agree (sk : XWingPrivateKey P) (e : Encapsulation P) : Type 0 where
    pub opened : Decapsulation P
    pub decapsulates : xwing_decapsulate P sk e.ciphertext ≡ ok opened
    pub same_secret : opened.shared ≡ e.shared
    pub ciphertext_length : length e.ciphertext ≡ xwing_ciphertext_size
    pub shared_length : length e.shared ≡ xwing_shared_size

  module _ (kem : KemLaws P) (sk : XWingPrivateKey P) (pair : IsKeyPair P sk) where
    -- What the encapsulator computes from an ephemeral scalar, and the recipient from its point.
    Agree-parts :
        (ct ss_m eph u s : Bytes)
        → length ct ≡ mlkem_ciphertext_size
        → P.mlkem_decapsulate sk.mlkem_priv ct ≡ ok ss_m
        → length eph ≡ point_size
        → or_nil (P.x25519 eph P.basepoint) ≡ ok u
        → P.x25519 eph sk.x25519_pub ≡ ok s
        → Agree sk (record {
          ciphertext = ct ++ u;
          shared = combine_xwing P ss_m s u sk.x25519_pub;
          eph_priv = zero_bytes eph;
          ss_m = zero_bytes ss_m;
          ss_x = zero_bytes s;
        })
    Agree-parts ct ss_m eph u s hc em he eu es =
        let (u', eu') = kem.x25519_base eph he in
        let same : u' ≡ u = ok_inj (rw eu' at eu) in
        let base : P.x25519 eph P.basepoint ≡ ok u = eu' ∙ ap ok same in
        let (s', ea, eb) =
          kem.x25519_agree eph sk.x25519_priv u sk.x25519_pub he pair.scalar base pair.point in
        let hu = kem.x25519_length _ _ _ base in
        let secret : s' ≡ s = ok_inj (sym ea ∙ es) in
        record {
          opened = _;
          decapsulates = decapsulate_parts sk ct u ss_m s hc hu em (eb ∙ ap ok secret);
          same_secret = refl;
          ciphertext_length = omega (arith, length-append ct u);
          shared_length = length-combine_xwing _ _ _ _;
        }

    -- Whatever is encapsulated to the public half of a key pair, the private half decapsulates to
    -- the same shared secret of 32 bytes, from a ciphertext of 1120, if the libraries work.
    pub decapsulate-encapsulate :
        EntropyLaws P
        → (reader : Option P.Reader) (w w' : P.World) (e : Encapsulation P)
        → xwing_encapsulate P reader (xwing_public P sk) w ≡ (ok e, w')
        → Agree sk e
    unfolding xwing_encapsulate
    decapsulate-encapsulate ent reader w w' e h = elim (bind-eq_ok _ _ w h) [
      | via (ct, ss_m) w1 e1 h1 ↦ elim (bind-eq_ok _ _ w1 h1) [
        | via eph w2 e2 h2 ↦ elim (bind_lift-eq_ok _ _ w2 h2) [
          | via_lift u e3 h3 ↦ elim (bind_lift-eq_ok _ _ w2 h3) [
            | via_lift s e4 h4 ↦
                let (hc, em) = kem.mlkem_correct sk.mlkem_priv _ w w1 ct ss_m e1 in
                subst (Agree sk) (pure-eq_ok h4)
                  (Agree-parts ct ss_m eph u s hc em (ent.entropy_length _ 32 w1 w2 eph e2) e3 e4)
          ]
        ]
      ]
    ]

    -- With entropy at hand, encapsulating to the public half of a key pair succeeds, if the
    -- libraries work.
    pub encapsulate_total :
        EntropyLaws P
        → IsSupplied P
        → (reader : Option P.Reader) (w : P.World)
        → (e : Encapsulation P) × (w' : P.World) × (xwing_encapsulate P reader (xwing_public P sk) w
            ≡ (ok e, w'))
    unfolding xwing_encapsulate
    encapsulate_total ent sup reader w =
        let r = reader_or_rand P reader in
        let (c, w1, e1) = sup.encapsulate_ok (P.mlkem_public sk.mlkem_priv) r w in
        let (eph, w2, e2) = sup.entropy_ok r 32 w1 in
        let he = ent.entropy_length r 32 w1 w2 eph e2 in
        let (u, eu) = kem.x25519_base eph he in
        let (s, ea, _) =
          kem.x25519_agree eph sk.x25519_priv u sk.x25519_pub he pair.scalar eu pair.point in
        (
          _,
          w2,
          bind_ok _ _ w e1
              ∙ bind_ok _ _ w1 e2
              ∙ bind_lift_ok _ _ w2 (ap or_nil eu)
              ∙ bind_lift_ok _ _ w2 ea,
        )

  -- A successful encapsulation leaves zeros where its secrets were, whoever it was for.
  pub record IsErased (e : Encapsulation P) : Type 0 where
    pub eph_priv : e.eph_priv ≡ zeros (length e.eph_priv)
    pub ss_m : e.ss_m ≡ zeros (length e.ss_m)
    pub ss_x : e.ss_x ≡ zeros (length e.ss_x)

  zero_bytes-length : (bs : Bytes) → zero_bytes bs ≡ zeros (length (zero_bytes bs))
  zero_bytes-length bs =
      let e = zero_bytes-zeros bs in e ∙ ap zeros (sym (ap length e ∙ length-zeros (length bs)))

  -- When encapsulation succeeds, the buffers of the ephemeral scalar and of both component
  -- secrets hold zeros.
  pub encapsulate-IsErased :
      (reader : Option P.Reader) (pk : XWingPublicKey P) (w w' : P.World) (e : Encapsulation P)
      → xwing_encapsulate P reader pk w ≡ (ok e, w')
      → IsErased e
  unfolding xwing_encapsulate
  encapsulate-IsErased reader pk w w' e h = elim (bind-eq_ok _ _ w h) [
    | via (ct, ss_m) w1 e1 h1 ↦ elim (bind-eq_ok _ _ w1 h1) [
      | via eph w2 e2 h2 ↦ elim (bind_lift-eq_ok _ _ w2 h2) [
        | via_lift u e3 h3 ↦ elim (bind_lift-eq_ok _ _ w2 h3) [
          | via_lift s e4 h4 ↦ subst IsErased (pure-eq_ok h4) (record {
            eph_priv = zero_bytes-length eph;
            ss_m = zero_bytes-length ss_m;
            ss_x = zero_bytes-length s;
          })
        ]
      ]
    ]
  ]
