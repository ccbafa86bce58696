-- ===== src/Handshake/Total.antt =====
-- Panics of the two runs of the handshake (handshake.go).
mod Calls
use zwing.Base.{
  subst, ◌⊎◌, inl, inr, [], ok_inj, bind-eq_ok, via, pure-eq_ok, ℕ, ◌≤◌, ◌≡◌, refl, sym, ap, arith,
  Bytes, Option, none, some, length, length-append, Error, Outcome, ok, err, panic, and_then, ◌++◌,
  or_nil,
}
use zwing.Base.Returns.{
  IsReturn, Returns, returns_rules, Returns-bind, Returns-lift, Returns-pure, Returns-bind_with,
  IsReturn-ok, IsReturn-err, IsReturn-and_then, IsReturn-and_then_with,
}
use zwing.Identity.Bounds.{parse_identity_public-ed_pub}
use zwing.Platform.{Platform}
use zwing.Platform.Laws.{KemLaws, SignatureLaws, AeadLaws, IsPanicFree}
use zwing.Config.{Config}
use zwing.Wire.{write_frame, read_payload, read_frame}
use zwing.Kem.{
  XWingPrivateKey, XWingPublicKey, xwing_decapsulate, xwing_encapsulate, parse_xwing_public_key,
}
use zwing.Identity.{
  identity_digest, zwing_domain, Identity, IdentityPublic, sign, verify, parse_identity_public,
}
use zwing.Identity.Codec.{IsSound}
use zwing.Aead.{or_else, must_chacha20, aead_open, or_error}
use zwing.Messages.{HandshakeInit}
use zwing.Messages.Total.{
  parse_handshake_init-IsReturn, split_resp_id_payload-IsReturn, parse_handshake_response-IsReturn,
}
use zwing.Handshake.Agreement.Steps.{length-derive, length-wire_id, wire_id}
use zwing.Messages.Reading.{field}
use zwing.Messages.RoundTrip.{build_resp_id_payload_ok, marshal_handshake_init_ok}
use zwing.Messages.Response.{marshal_handshake_response_ok}
use zwing.Aead.Nonces.{aead_open-aead_seal}
use zwing.Messages.{HandshakeResponse}
use zwing.Handshake.{resp_id_key_label, resp_id_nonce_label}
use zwing.Handshake.{
  derive, check_pin, send_init, accept_response, await_response, initiate, run_initiator,
  accept_init, seal_response, answer_init, respond, run_responder,
}
use zwing.Handshake.Total.Calls.{
  write_frame-Returns, read_frame-Returns, parse_identity_public-IsReturn, verify-IsReturn,
  xwing_decapsulate-IsReturn, xwing_encapsulate-Returns, sign-Returns, or_error-IsReturn,
  aead_open-IsReturn,
}

returns_ok : {A : Type 0} {o : Outcome A} {a : A} → o ≡ ok a → IsReturn o
returns_ok {A} {o} {a} e = subst IsReturn (sym e) (IsReturn-ok a)

or_nil-eq_ok : {bs : Bytes} (o : Outcome Bytes) → or_nil o ≡ ok bs → (o ≡ ok bs) ⊎ (bs ≡ [])
or_nil-eq_ok (ok a) e = inl e
or_nil-eq_ok (err f) e = inr (ok_inj (sym e))
or_nil-eq_ok (panic p) e = cc

module _ (P : Platform) (free : IsPanicFree P) where
  check_pin-IsReturn :
      (e : Option (IdentityPublic P)) (p : IdentityPublic P) → IsReturn (check_pin P e p)
  check_pin-IsReturn e p = search returns_rules

  accept_init-IsReturn : (cfg : Config P) (frame : Bytes) → IsReturn (accept_init P cfg frame)
  unfolding accept_init
  accept_init-IsReturn cfg frame =
      IsReturn-and_then _ _ (parse_handshake_init-IsReturn frame) (λ init.
        IsReturn-and_then_with _ _ (parse_identity_public-IsReturn P free _) (λ remote parsed.
          let key = parse_identity_public-ed_pub P _ remote parsed in
          IsReturn-and_then _ _ (verify-IsReturn P free _ _ _ _ key)
            (λ _. IsReturn-and_then _ _ (check_pin-IsReturn _ _) (λ _. IsReturn-ok _))))

  accept_response-IsReturn :
      (cfg : Config P) (id : Identity P) (id_pub frame : Bytes)
      → IsReturn (accept_response P cfg id id_pub frame)
  unfolding accept_response
  accept_response-IsReturn cfg id id_pub frame =
      IsReturn-and_then _ _ (parse_handshake_response-IsReturn frame) (λ resp.
        IsReturn-and_then _ _ (xwing_decapsulate-IsReturn P free _ _) (λ opened.
          IsReturn-and_then _ _
            (or_error-IsReturn P free _ _
              (aead_open-IsReturn P free _ _ _ _ (length-derive P _ _ _)))
            (λ plaintext. IsReturn-and_then _ _ (split_resp_id_payload-IsReturn plaintext) (λ parts.
              IsReturn-and_then_with _ _ (parse_identity_public-IsReturn P free _) (λ remote parsed.
                let key = parse_identity_public-ed_pub P _ remote parsed in
                IsReturn-and_then _ _ (verify-IsReturn P free _ _ _ _ key)
                  (λ _. IsReturn-and_then _ _ (check_pin-IsReturn _ _) (λ _. IsReturn-ok _)))))))

  await_response-Returns :
      (conn : P.RawConn) (cfg : Config P) (id : Identity P) (id_pub : Bytes)
      → Returns (await_response P conn cfg id id_pub)
  unfolding await_response
  await_response-Returns conn cfg id id_pub =
      search (returns_rules, read_frame-Returns P free, accept_response-IsReturn)

  module _ (kem : KemLaws P) (signatures : SignatureLaws P) where
    -- A signature is no longer than one with both halves, also where ML-DSA failed.
    length-sign :
        (id : Identity P) (ctx m sig : Bytes) (w w' : P.World)
        → IsSound P id
        → sign P id ctx m w ≡ (ok sig, w')
        → length sig ≤ 3373
    unfolding sign
    length-sign id ctx m sig w w' sound h = elim (bind-eq_ok _ _ w h) [
      | via dsa w1 e1 h1 ↦
          let digest = identity_digest P ctx m in
          let ed = P.ed25519_sign id.ed_priv digest in
          let hed = (signatures.ed25519_correct id.ed_pub id.ed_priv digest sound.ed25519).0 in
          let whole = length-append ed dsa in
          let made = ap length (pure-eq_ok h1) in
          elim (or_nil-eq_ok _ (ap (λ q. q.0) e1)) [
            | inl e ↦
                let hdsa =
                  (signatures.mldsa_correct id.dsa_priv P.rand_reader digest zwing_domain dsa w _
                    (λ i. (
                      e i,
                      (P.mldsa_sign_ctx id.dsa_priv P.rand_reader digest zwing_domain w).1,
                    ))).0 in
                omega arith
            | inr e ↦ omega (arith, ap length e)
          ]
    ]

    send_init-Returns :
        (conn : P.RawConn) (id : Identity P) → IsSound P id → Returns (send_init P conn id)
    unfolding send_init
    send_init-Returns conn id sound =
        let hid = length-wire_id P kem signatures id sound in
        Returns-bind_with _ _ (sign-Returns P free id _ _) (λ w w' sig e.
          let hsig = length-sign id _ _ sig w w' sound e in
          let h : HandshakeInit = record { identity_pub = wire_id P id; signature = sig } in
          let made = marshal_handshake_init_ok h (omega arith) (omega arith) in
          Returns-bind _ _ (Returns-lift _ (returns_ok made)) (λ frame.
            Returns-bind _ _ (write_frame-Returns P free conn frame) (λ _. Returns-pure _)))

    module _ (aead : AeadLaws P) where
      seal_response-IsReturn :
          (shared ct sig : Bytes) (id : Identity P)
          → IsSound P id
          → length sig ≤ 3373
          → IsReturn (seal_response P shared ct (wire_id P id) sig)
      unfolding seal_response and_then
      seal_response-IsReturn shared ct sig id sound hsig =
          let id_pub = wire_id P id in
          let hid = length-wire_id P kem signatures id sound in
          let text = field id_pub ++ field sig in
          let htext = length-append (field id_pub) (field sig) in
          let key = derive P shared resp_id_key_label 32 in
          let built = build_resp_id_payload_ok id_pub sig (omega arith) (omega arith) in
          let (sealed, es, eo, hl) =
            aead_open-aead_seal P aead key resp_id_nonce_label ct text
              (length-derive P shared resp_id_key_label 32) in
          let resp : HandshakeResponse = record { xwing_ciphertext = ct; encrypted_id = sealed } in
          let made = marshal_handshake_response_ok resp (omega arith) in
          returns_ok {a = ct ++ field sealed} (rw (built, es, made))

      answer_init-Returns :
          (conn : P.RawConn) (id : Identity P) (init : HandshakeInit) (remote : IdentityPublic P)
          → IsSound P id
          → Returns (answer_init P conn id init remote)
      unfolding answer_init
      answer_init-Returns conn id init remote sound =
          Returns-bind _ _ (xwing_encapsulate-Returns P free none _) (λ sealed.
            Returns-bind_with _ _ (sign-Returns P free id _ _) (λ w w' sig e.
              Returns-bind _ _
                (Returns-lift _
                  (seal_response-IsReturn _ _ sig id sound (length-sign id _ _ sig w w' sound e)))
                (λ frame.
                  Returns-bind _ _ (write_frame-Returns P free conn frame) (λ _. Returns-pure _))))

      -- A sound identity's initiator returns a result or an error and does not panic, at a slice
      -- expression or otherwise, whatever arrives on the connection, if the libraries work and do
      -- not panic.
      pub run_initiator-Returns :
          (conn : P.RawConn) (cfg : Config P) (id : Identity P)
          → cfg.local_identity ≡ some id
          → IsSound P id
          → Returns (run_initiator P conn (some cfg))
      unfolding run_initiator initiate
      run_initiator-Returns conn cfg id local sound =
          subst (λ l. Returns (initiate P conn cfg l)) (sym local)
            (Returns-bind _ _ (send_init-Returns conn id sound)
              (λ id_pub. await_response-Returns conn cfg id id_pub))

      -- A sound identity's responder returns a result or an error and does not panic, at a slice
      -- expression or otherwise, whatever arrives on the connection, if the libraries work and do
      -- not panic.
      pub run_responder-Returns :
          (conn : P.RawConn) (cfg : Config P) (id : Identity P)
          → cfg.local_identity ≡ some id
          → IsSound P id
          → Returns (run_responder P conn (some cfg))
      unfolding run_responder respond
      run_responder-Returns conn cfg id local sound =
          subst (λ l. Returns (respond P conn cfg l)) (sym local)
            (Returns-bind _ _ (read_frame-Returns P free conn) (λ frame.
              Returns-bind _ _ (Returns-lift _ (accept_init-IsReturn cfg frame))
                (λ (init, remote). answer_init-Returns conn id init remote sound)))
