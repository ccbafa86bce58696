-- ===== src/Handshake/Total/Calls.antt =====
-- Panics of what the handshake calls: framing, keys, signatures and sealing.
use zwing.Identity.Bounds.{parse_identity_public_eq}
use zwing.Kem.Bounds.{parse_xwing_public_key_eq, xwing_decapsulate_eq}
use zwing.Base.{
  ℕ, ◌≡◌, refl, arith, Bytes, Option, none, some, length, Error, Outcome, ok, err, panic,
}
use zwing.Base.Returns.{
  IsReturn, Returns, returns_rules, IsReturn-ok, IsReturn-err, IsReturn-and_then,
}
use zwing.Base.{inl, inr}
use zwing.Platform.{Platform, ed25519_public_key_size}
use zwing.Platform.Laws.{IsPanicFree}
use zwing.Wire.{write_frame, read_payload, read_frame}
use zwing.Kem.{
  XWingPrivateKey, XWingPublicKey, xwing_decapsulate, xwing_encapsulate, parse_xwing_public_key,
}
use zwing.Identity.{Identity, IdentityPublic, sign, verify, parse_identity_public}
use zwing.Base.{sym, subst}
use zwing.Identity.Signature.{verify_cases}
use zwing.Aead.{or_else, must_chacha20, aead_open, or_error}

module _ (P : Platform) (free : IsPanicFree P) where
  pub write_frame-Returns : (c : P.RawConn) (p : Bytes) → Returns (write_frame P.host c p)
  unfolding write_frame
  write_frame-Returns c p = search (returns_rules, free.conn_write)

  read_payload-Returns : (c : P.RawConn) (n : ℕ) → Returns (read_payload P.host c n)
  unfolding read_payload
  read_payload-Returns c n = search (returns_rules, free.conn_read_full)

  pub read_frame-Returns : (c : P.RawConn) → Returns (read_frame P.host c)
  unfolding read_frame
  read_frame-Returns c = search (returns_rules, free.conn_read_full, read_payload-Returns)

  parse_xwing_public_key-IsReturn : (bs : Bytes) → IsReturn (parse_xwing_public_key P bs)
  parse_xwing_public_key-IsReturn bs =
      subst IsReturn (sym (parse_xwing_public_key_eq P bs))
        (search (returns_rules, free.mlkem_public_from_bytes))

  pub parse_identity_public-IsReturn : (bs : Bytes) → IsReturn (parse_identity_public P bs)
  parse_identity_public-IsReturn bs =
      subst IsReturn (sym (parse_identity_public_eq P bs))
        (search (returns_rules, free.mldsa_public_from_bytes, parse_xwing_public_key-IsReturn))

  pub verify-IsReturn :
      (p : IdentityPublic P) (ctx m sig : Bytes)
      → length p.ed_pub ≡ ed25519_public_key_size
      → IsReturn (verify P p ctx m sig)
  verify-IsReturn p ctx m sig key = elim (verify_cases P p ctx m sig key) [
    | inl fine ↦ subst IsReturn (sym fine) (IsReturn-ok tt)
    | inr bad ↦ subst IsReturn (sym bad) (IsReturn-err _)
  ]

  pub xwing_decapsulate-IsReturn :
      (sk : XWingPrivateKey P) (ct : Bytes) → IsReturn (xwing_decapsulate P sk ct)
  xwing_decapsulate-IsReturn sk ct =
      subst IsReturn (sym (xwing_decapsulate_eq P sk ct))
        (search (returns_rules, free.mlkem_decapsulate, free.x25519))

  pub xwing_encapsulate-Returns :
      (r : Option P.Reader) (pk : XWingPublicKey P) → Returns (xwing_encapsulate P r pk)
  unfolding xwing_encapsulate
  xwing_encapsulate-Returns r pk =
      search (returns_rules, free.mlkem_encapsulate, free.entropy_read_full, free.x25519) depth 10

  pub sign-Returns : (id : Identity P) (ctx m : Bytes) → Returns (sign P id ctx m)
  unfolding sign
  sign-Returns id ctx m = search (returns_rules, free.mldsa_sign_ctx)

  must_chacha20-IsReturn : (key : Bytes) → length key ≡ 32 → IsReturn (must_chacha20 P key)
  unfolding must_chacha20
  must_chacha20-IsReturn key h = record { never = λ p e. ground arith }

  or_else-IsReturn : {A : Type 0} (o : Option A) (e : Error) → IsReturn (or_else o e)
  or_else-IsReturn (some a) e = IsReturn-ok a
  or_else-IsReturn none e = IsReturn-err e

  pub or_error-IsReturn :
      {A : Type 0} (e : Error) (o : Outcome A) → IsReturn o → IsReturn (or_error e o)
  or_error-IsReturn e (ok a) h = IsReturn-ok a
  or_error-IsReturn e (err f) h = IsReturn-err e
  or_error-IsReturn e (panic p) h = absurd (h.never p refl)

  pub aead_open-IsReturn :
      (key label aad ct : Bytes) → length key ≡ 32 → IsReturn (aead_open P key label aad ct)
  unfolding aead_open
  aead_open-IsReturn key label aad ct h =
      IsReturn-and_then _ _ (must_chacha20-IsReturn key h) (λ a. or_else-IsReturn _ _)
