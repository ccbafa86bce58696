-- ===== src/Handshake/Responding.antt =====
-- What stands behind a run of the responder that succeeds (handshake.go).
use zwing.Wire.{read_frame, write_frame}
use zwing.Kem.{Encapsulation, xwing_encapsulate}
use zwing.Identity.{sign}
use zwing.Handshake.{seal_response, transcript_hash, hs_label_response}
use zwing.Base.{◌≡◌, refl, sym, subst, ap, ◌∙◌, arith, Bytes, Option, none, some}
use zwing.Base.{ok}
use zwing.Base.{bind-eq_ok, via, bind_lift-eq_ok, via_lift, pure-eq_ok}
use zwing.Platform.{Platform}
use zwing.Handshake.{chacha20_key_size}
use zwing.Config.{Config}
use zwing.Identity.{Identity, IdentityPublic, public_of, marshal_identity}
use zwing.Messages.{HandshakeInit}
use zwing.Handshake.{HandshakeResult, derive, result_of}
use zwing.Handshake.{answer_init, run_responder, respond}
use zwing.Handshake.{channel_key_label_i2r, channel_key_label_r2i}
use zwing.Handshake.Authentication.{IsAuthenticInit, accept_init-IsAuthenticInit}

module _ (P : Platform) where
  -- What the responder did with an accepted message: it encapsulated a secret to the peer, signed
  -- the transcript of that, sent both, and its result holds the peer and the keys of that secret.
  pub record IsAnswered (conn : P.RawConn) (id : Identity P) (init : HandshakeInit)
      (remote : IdentityPublic P) (w w' : P.World) (res : HandshakeResult P) : Type 0 where
    pub sealed : Encapsulation P
    pub w1 : P.World
    pub encapsulated : xwing_encapsulate P none remote.xwing_pub w ≡ (ok sealed, w1)
    pub sig : Bytes
    pub w2 : P.World
    pub signed :
        sign P id hs_label_response (transcript_hash P init.identity_pub sealed.ciphertext) w1
        ≡ (ok sig, w2)
    pub answer : Bytes
    pub built :
        seal_response P sealed.shared sealed.ciphertext (marshal_identity P (public_of P id)) sig
        ≡ ok answer
    pub sent : write_frame P.host conn answer w2 ≡ (ok tt, w')
    pub remote_named : res.remote ≡ remote
    pub key_i2r : res.key_i2r ≡ derive P sealed.shared channel_key_label_i2r chacha20_key_size
    pub key_r2i : res.key_r2i ≡ derive P sealed.shared channel_key_label_r2i chacha20_key_size

  -- A run of the responder that succeeded read a message that it accepted, and answered it.
  pub data Responded (conn : P.RawConn) (cfg : Config P) (w w' : P.World) (res : HandshakeResult P)
      : Type 0 where
    responded :
        (id : Identity P) (frame : Bytes) (init : HandshakeInit) (w1 : P.World)
        → cfg.local_identity ≡ some id
        → read_frame P.host conn w ≡ (ok frame, w1)
        → IsAuthenticInit P cfg frame init res.remote
        → IsAnswered conn id init res.remote w1 w' res
        → Responded conn cfg w w' res

  answer_init-IsAnswered :
      (conn : P.RawConn) (id : Identity P) (init : HandshakeInit) (remote : IdentityPublic P)
      (w w' : P.World) (res : HandshakeResult P)
      → answer_init P conn id init remote w ≡ (ok res, w')
      → IsAnswered conn id init remote w w' res
  unfolding answer_init
  answer_init-IsAnswered conn id init remote w w' res h = elim (bind-eq_ok _ _ w h) [
    | via sealed w1 e1 h1 ↦ elim (bind-eq_ok _ _ w1 h1) [
      | via sig w2 e2 h2 ↦ elim (bind_lift-eq_ok _ _ w2 h2) [
        | via_lift answer e3 h3 ↦ elim (bind-eq_ok _ _ w2 h3) [
          | via u w3 e4 h4 ↦
              unfold result_of in
              let made = sym (pure-eq_ok h4) in
              record {
                sealed = sealed;
                w1 = w1;
                encapsulated = e1;
                sig = sig;
                w2 = w2;
                signed = e2;
                answer = answer;
                built = e3;
                sent = e4 ∙ ap (λ x. (ok tt, x.1)) h4;
                remote_named = ap (λ r. r.remote) made;
                key_i2r = ap (λ r. r.key_i2r) made;
                key_r2i = ap (λ r. r.key_r2i) made;
              }
        ]
      ]
    ]
  ]

  respond-Responded :
      (conn : P.RawConn) (cfg : Config P) (id : Option (Identity P)) (w w' : P.World)
      (res : HandshakeResult P)
      → cfg.local_identity ≡ id
      → respond P conn cfg id w ≡ (ok res, w')
      → Responded conn cfg w w' res
  unfolding respond
  respond-Responded conn cfg none w w' res local h = ground arith
  respond-Responded conn cfg (some id) w w' res local h = elim (bind-eq_ok _ _ w h) [
    | via frame w1 e1 h1 ↦ elim (bind_lift-eq_ok _ _ w1 h1) [
      | via_lift (init, remote) e2 h2 ↦
          let a = answer_init-IsAnswered conn id init remote w1 w' res h2 in
          responded id frame init w1 local e1
            (subst (λ r. IsAuthenticInit P cfg frame init r) (sym a.remote_named)
              (accept_init-IsAuthenticInit P cfg frame init remote e2))
            (subst (λ r. IsAnswered conn id init r w1 w' res) (sym a.remote_named) a)
    ]
  ]

  -- If the responder's run succeeds, the frame that it read from the connection parsed as a
  -- HandshakeInit whose identity is the peer that the result names, passes the pin, and has signed
  -- its own wire form with both keys; and it encapsulated a secret to that peer, signed the
  -- transcript and sent the response, and the result holds the keys of that secret.
  pub run_responder-Responded :
      (conn : P.RawConn) (cfg : Config P) (w w' : P.World) (res : HandshakeResult P)
      → run_responder P conn (some cfg) w ≡ (ok res, w')
      → Responded conn cfg w w' res
  unfolding run_responder
  run_responder-Responded conn cfg w w' res h =
      respond-Responded conn cfg cfg.local_identity w w' res refl h
