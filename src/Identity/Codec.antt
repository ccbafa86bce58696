-- ===== src/Identity/Codec.antt =====
-- The wire form of public identities, of 3200 bytes (identity.go).
use zwing.Identity.Bounds.{parse_identity_public_eq}
use zwing.Base.{◌≡◌, ◌↔◌, sym, subst, ap, ◌∙◌, ◌++◌, arith, true, some, append_assoc}
use zwing.Base.{Bytes, length, length-append, drop, take-append, drop-append, take_all}
use zwing.Base.{copy_into-zeros, bytes_eq→eq, bytes_eq_refl, append_inj, ok, and_then}
use zwing.Base.{bind-eq_ok, via, pure-eq_ok}
use zwing.Platform.{Platform, ed25519_public_key_size, mldsa_public_key_size}
use zwing.Platform.Laws.{KemLaws, SignatureLaws, EntropyLaws, IsEd25519Pair}
use zwing.Kem.{XWingPublicKey, marshal_xwing, parse_xwing_public_key, xwing_public_key_size}
use zwing.Kem.Keys.{IsKeyPair, length-x25519_pub, length-marshal_xwing, parse-marshal_xwing}
use zwing.Kem.Keys.{generate_xwing_key-IsKeyPair}
use zwing.Identity.{
  Identity, IdentityPublic, generate_identity_from, public_of, identity_public_size,
}
use zwing.Identity.{marshal_identity, parse_identity_public, identity_equal}

module _ (P : Platform) where
  -- The byte fields of a public identity have their sizes.
  pub record IsSized (p : IdentityPublic P) : Type 0 where
    pub ed_pub : length p.ed_pub ≡ ed25519_public_key_size
    pub x25519 : length p.xwing_pub.x25519 ≡ 32

  -- The keys of an identity belong together.
  pub record IsSound (id : Identity P) : Type 0 where
    pub ed25519 : IsEd25519Pair P id.ed_pub id.ed_priv
    pub xwing : IsKeyPair P id.xwing

  -- An identity that generation returns is sound, if the libraries work: its Ed25519 keys are one
  -- generated pair, and its X-Wing key holds the public point of its scalar.
  pub generate_identity_from-IsSound :
      KemLaws P
      → EntropyLaws P
      → (r : P.Reader) (w w' : P.World) (id : Identity P)
      → generate_identity_from P r w ≡ (ok id, w')
      → IsSound id
  unfolding generate_identity_from
  generate_identity_from-IsSound kem ent r w w' id h = elim (bind-eq_ok _ _ w h) [
    | via (ed_pub, ed_priv) w1 e1 h1 ↦ elim (bind-eq_ok _ _ w1 h1) [
      | via dsa w2 e2 h2 ↦ elim (bind-eq_ok _ _ w2 h2) [
        | via xw w3 e3 h3 ↦ subst IsSound (pure-eq_ok h3) (record {
          ed25519 = (r, w, w1, e1);
          xwing = generate_xwing_key-IsKeyPair P kem ent (some r) w2 w3 xw e3;
        })
      ]
    ]
  ]

  module _ (kem : KemLaws P) (signatures : SignatureLaws P) where
    pub public_of-IsSized : (id : Identity P) → IsSound id → IsSized (public_of P id)
    public_of-IsSized id s = record {
      ed_pub = signatures.ed25519_public_length _ _ s.ed25519;
      x25519 = length-x25519_pub P kem id.xwing s.xwing;
    }

    pub length-marshal_identity :
        (p : IdentityPublic P) → IsSized p → length (marshal_identity P p) ≡ identity_public_size
    unfolding marshal_identity
    length-marshal_identity p s =
        let dsa = P.mldsa_public_bytes p.dsa_pub in
        let xw = marshal_xwing P p.xwing_pub in
        omega (
          arith,
          length-append p.ed_pub (dsa ++ xw),
          length-append dsa xw,
          s.ed_pub,
          signatures.mldsa_public_length p.dsa_pub,
          length-marshal_xwing P kem p.xwing_pub s.x25519,
        )

    parse_identity_parts :
        (ed dsa xw : Bytes) (dsa_pub : P.MldsaPublic) (xwing_pub : XWingPublicKey P)
        → length ed ≡ ed25519_public_key_size
        → length dsa ≡ mldsa_public_key_size
        → length xw ≡ xwing_public_key_size
        → P.mldsa_public_from_bytes dsa ≡ ok dsa_pub
        → parse_xwing_public_key P xw ≡ ok xwing_pub
        → parse_identity_public P (ed ++ (dsa ++ xw))
          ≡ ok (record { ed_pub = ed; dsa_pub = dsa_pub; xwing_pub = xwing_pub })
    unfolding and_then
    parse_identity_parts ed dsa xw dsa_pub xwing_pub he hd hx ed_ok ex_ok = ground (
      arith,
      parse_identity_public_eq P (ed ++ (dsa ++ xw)),
      length-append ed (dsa ++ xw),
      length-append dsa xw,
      take-append 32 ed (dsa ++ xw) he,
      copy_into-zeros 32 ed he,
      drop-append 32 ed (dsa ++ xw) he,
      take-append 1952 dsa xw hd,
      tail_part,
      take_all 1216 xw (omega arith),
    )
      where
        tail_part : drop 1984 (ed ++ (dsa ++ xw)) ≡ xw
        tail_part =
            ap (drop 1984) (sym (append_assoc ed dsa xw))
            ∙ drop-append 1984 (ed ++ dsa) xw (omega (arith, length-append ed dsa))

    -- A public identity with fields of the right sizes is parsed back from its wire form, if the
    -- libraries work.
    pub parse-marshal_identity :
        (p : IdentityPublic P) → IsSized p → parse_identity_public P (marshal_identity P p) ≡ ok p
    unfolding marshal_identity
    parse-marshal_identity p s =
        parse_identity_parts p.ed_pub (P.mldsa_public_bytes p.dsa_pub) (marshal_xwing P p.xwing_pub)
          p.dsa_pub p.xwing_pub s.ed_pub (signatures.mldsa_public_length p.dsa_pub)
          (length-marshal_xwing P kem p.xwing_pub s.x25519)
          (signatures.mldsa_public_parse p.dsa_pub) (parse-marshal_xwing P kem p.xwing_pub s.x25519)

    -- Two public identities with fields of the right sizes are equal to the code exactly when
    -- their wire forms are the same bytes, if the libraries work.
    pub identity_equal_iff :
        (p q : IdentityPublic P)
        → IsSized p
        → IsSized q
        → (identity_equal P (some p) (some q) ≡ true)
          ↔ (marshal_identity P p ≡ marshal_identity P q)
    unfolding identity_equal marshal_identity
    identity_equal_iff p q sp sq = (
      λ h. ground (
        arith,
        bytes_eq→eq p.ed_pub q.ed_pub,
        bytes_eq→eq (P.mldsa_public_bytes p.dsa_pub) (P.mldsa_public_bytes q.dsa_pub),
        bytes_eq→eq (marshal_xwing P p.xwing_pub) (marshal_xwing P q.xwing_pub),
      ),
      λ e.
          let (ed, e1) = append_inj p.ed_pub q.ed_pub _ _ (sp.ed_pub ∙ sym sq.ed_pub) e in
          let (dsa, xw) =
            append_inj (P.mldsa_public_bytes p.dsa_pub) (P.mldsa_public_bytes q.dsa_pub) _ _
              (signatures.mldsa_public_length p.dsa_pub
                ∙ sym (signatures.mldsa_public_length q.dsa_pub))
              e1 in
          rw (ed, dsa, xw)
            (rw (
              bytes_eq_refl q.ed_pub,
              bytes_eq_refl (P.mldsa_public_bytes q.dsa_pub),
              bytes_eq_refl (marshal_xwing P q.xwing_pub),
            )),
    )
