-- ===== src/Handshake/Runs.antt =====
-- What stands behind a run that succeeds (handshake.go): the initiator, a pin, and the keys again.
use zwing.Base.{◌≡◌, refl, sym, subst, ap, ◌∙◌, arith, Bytes, false, Option, none, some}
use zwing.Base.{Outcome, ok, and_then, bytes_eq→eq}
use zwing.Base.{bind-eq_ok, via, bind_lift-eq_ok, via_lift, pure-eq_ok}
use zwing.Base.{◌⊎◌, inl, inr}
use zwing.Platform.{Platform}
use zwing.Handshake.{chacha20_key_size}
use zwing.Config.{Config}
use zwing.Kem.{XWingPrivateKey, xwing_decapsulate, marshal_xwing}
use zwing.Identity.{Identity, IdentityPublic, public_of, marshal_identity, identity_equal}
use zwing.Messages.{parse_handshake_response}
use zwing.Handshake.{HandshakeResult, derive, result_of, is_unexpected, send_init, accept_response}
use zwing.Handshake.{run_initiator, run_responder, await_response, initiate}
use zwing.Handshake.{channel_key_label_i2r, channel_key_label_r2i}
use zwing.Handshake.Authentication.{IsAuthentic, accept_response-IsAuthentic}
use zwing.Handshake.Responding.{responded, run_responder-Responded}

module _ (P : Platform) where
  -- A run of the initiator that succeeded had an identity, sent its public half, and accepted a
  -- response to that.
  pub data Initiated (cfg : Config P) (res : HandshakeResult P) : Type 0 where
    initiated :
        (id : Identity P) (frame : Bytes)
        → cfg.local_identity ≡ some id
        → IsAuthentic P cfg id (marshal_identity P (public_of P id)) frame res
        → Initiated cfg res

  pub send_init-eq_ok :
      (conn : P.RawConn) (id : Identity P) (w w' : P.World) (id_pub : Bytes)
      → send_init P conn id w ≡ (ok id_pub, w')
      → marshal_identity P (public_of P id) ≡ id_pub
  unfolding send_init
  send_init-eq_ok conn id w w' id_pub h = elim (bind-eq_ok _ _ w h) [
    | via sig w1 e1 h1 ↦ elim (bind_lift-eq_ok _ _ w1 h1) [
      | via_lift frame e2 h2 ↦ elim (bind-eq_ok _ _ w1 h2) [ via u w2 e3 h3 ↦ pure-eq_ok h3 ]
    ]
  ]

  initiate-Initiated :
      (conn : P.RawConn) (cfg : Config P) (id : Option (Identity P)) (w w' : P.World)
      (res : HandshakeResult P)
      → cfg.local_identity ≡ id
      → initiate P conn cfg id w ≡ (ok res, w')
      → Initiated cfg res
  unfolding initiate await_response
  initiate-Initiated conn cfg none w w' res e h = ground arith
  initiate-Initiated conn cfg (some id) w w' res e h = elim (bind-eq_ok _ _ w h) [
    | via id_pub w1 e1 h1 ↦ elim (bind-eq_ok _ _ w1 h1) [
      | via frame w2 e2 h2 ↦ initiated id frame e (
          subst (λ b. IsAuthentic P cfg id b frame res)
            (sym (send_init-eq_ok conn id w w1 id_pub e1))
            (accept_response-IsAuthentic P cfg id id_pub frame res (ap (λ p. p.0) h2)))
    ]
  ]

  pub run_initiator-Initiated :
      (conn : P.RawConn) (cfg : Config P) (w w' : P.World) (res : HandshakeResult P)
      → run_initiator P conn (some cfg) w ≡ (ok res, w')
      → Initiated cfg res
  unfolding run_initiator
  run_initiator-Initiated conn cfg w w' res h =
      initiate-Initiated conn cfg cfg.local_identity w w' res refl h

  -- A pinned peer is the only one that either side accepts.
  expected-eq :
      (expected remote : IdentityPublic P)
      → is_unexpected P (some expected) remote ≡ false
      → marshal_identity P remote ≡ marshal_identity P expected
  unfolding identity_equal marshal_identity
  expected-eq expected remote h = ground (
    arith,
    bytes_eq→eq remote.ed_pub expected.ed_pub,
    bytes_eq→eq (P.mldsa_public_bytes remote.dsa_pub) (P.mldsa_public_bytes expected.dsa_pub),
    bytes_eq→eq (marshal_xwing P remote.xwing_pub) (marshal_xwing P expected.xwing_pub),
  )

  -- With a pinned identity in its configuration, the initiator's run succeeds only with a peer
  -- that has the wire form of the pin.
  run_initiator_pinned :
      (conn : P.RawConn) (cfg : Config P) (pin : IdentityPublic P) (w w' : P.World)
      (res : HandshakeResult P)
      → cfg.expected_remote ≡ some pin
      → run_initiator P conn (some cfg) w ≡ (ok res, w')
      → marshal_identity P res.remote ≡ marshal_identity P pin
  run_initiator_pinned conn cfg pin w w' res e h =
      elim (run_initiator-Initiated conn cfg w w' res h) [
        | initiated id frame _ a ↦
            expected-eq pin res.remote (ap (λ x. is_unexpected P x res.remote) (sym e) ∙ a.expected)
      ]

  -- With a pinned identity in its configuration, the responder's run succeeds only with a peer
  -- that has the wire form of the pin.
  run_responder_pinned :
      (conn : P.RawConn) (cfg : Config P) (pin : IdentityPublic P) (w w' : P.World)
      (res : HandshakeResult P)
      → cfg.expected_remote ≡ some pin
      → run_responder P conn (some cfg) w ≡ (ok res, w')
      → marshal_identity P res.remote ≡ marshal_identity P pin
  run_responder_pinned conn cfg pin w w' res e h =
      elim (run_responder-Responded P conn cfg w w' res h) [
        | responded id frame init w1 _ _ a _ ↦
            expected-eq pin res.remote (ap (λ x. is_unexpected P x res.remote) (sym e) ∙ a.expected)
      ]

  -- With a pinned identity in its configuration, the run of either side succeeds only with a peer
  -- that has the wire form of the pin.
  pub run_pinned :
      (conn : P.RawConn) (cfg : Config P) (pin : IdentityPublic P) (w w' : P.World)
      (res : HandshakeResult P)
      → cfg.expected_remote ≡ some pin
      → (run_initiator P conn (some cfg) w ≡ (ok res, w'))
        ⊎ (run_responder P conn (some cfg) w ≡ (ok res, w'))
      → marshal_identity P res.remote ≡ marshal_identity P pin
  run_pinned conn cfg pin w w' res e (inl h) = run_initiator_pinned conn cfg pin w w' res e h
  run_pinned conn cfg pin w w' res e (inr h) = run_responder_pinned conn cfg pin w w' res e h

  -- The channel keys of an accepted response, from the recorded frame and one long-term key.
  pub recover_keys : XWingPrivateKey P → Bytes → Outcome (Bytes × Bytes)
  recover_keys sk frame = and_then (parse_handshake_response frame) (λ resp.
      and_then (xwing_decapsulate P sk resp.xwing_ciphertext) (λ opened. ok (
        derive P opened.shared channel_key_label_i2r chacha20_key_size,
        derive P opened.shared channel_key_label_r2i chacha20_key_size,
      )))

  -- Whoever has the initiator's long-term X-Wing key and an accepted response has both channel
  -- keys of the session: nothing else of the initiator enters them.
  pub recover_keys-accept_response :
      (cfg : Config P) (id : Identity P) (id_pub frame : Bytes) (res : HandshakeResult P)
      → accept_response P cfg id id_pub frame ≡ ok res
      → recover_keys id.xwing frame ≡ ok (res.key_i2r, res.key_r2i)
  unfolding recover_keys and_then
  recover_keys-accept_response cfg id id_pub frame res h =
      let a = accept_response-IsAuthentic P cfg id id_pub frame res h in
      rw (a.parsed, a.decapsulated)
        (unfold result_of in ap (λ (r : HandshakeResult P). ok (r.key_i2r, r.key_r2i)) (sym a.keys))
