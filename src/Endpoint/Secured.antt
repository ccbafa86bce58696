-- ===== src/Endpoint/Secured.antt =====
-- Client (dial.go) against whoever controls the network: whose channel it is.
use zwing.Base.{◌≡◌, Bytes, if◌then◌else◌, ◌+◌, false, some, [], ok, ltb}
use zwing.Platform.{Platform}
use zwing.Config.{Config}
use zwing.Wire.{read_frame}
use zwing.Identity.{Identity, public_of, marshal_identity}
use zwing.Messages.{HandshakeResponse, parse_handshake_response}
use zwing.Handshake.{HandshakeResult, send_init, accept_response, result_of}
use zwing.Handshake.Attribution.{Answered, Signing, as_responder}
use zwing.Channel.{Conn, new_conn}
use zwing.Channel.Keys.{AreCrossed}

module _ (P : Platform) where
  -- Where a handshake begins: after the deadline is set, if there is one.
  abbrev pub begun : P.RawConn → Config P → P.World → P.World
  begun conn cfg w =
      if ltb 0 cfg.handshake_timeout
      then (P.conn_set_deadline conn (some ((P.now w).0 + cfg.handshake_timeout)) (P.now w).1).1
      else w

  -- The response that the initiator's run in a world hears.
  pub record IsHeard (conn : P.RawConn) (id : Identity P) (w : P.World) (frame : Bytes)
      (resp : HandshakeResponse) : Type 0 where
    pub id_pub : Bytes
    pub w1 : P.World
    pub w2 : P.World
    pub sent : send_init P conn id w ≡ (ok id_pub, w1)
    pub read : read_frame P.host conn w1 ≡ (ok frame, w2)
    pub parsed : parse_handshake_response frame ≡ ok resp

  -- The frame that a run of the initiator accepted.
  pub record Accepted (conn : P.RawConn) (cfg : Config P) (id : Identity P) (w : P.World)
      (res : HandshakeResult P) : Type 0 where
    pub frame : Bytes
    pub resp : HandshakeResponse
    pub heard : IsHeard conn id w frame resp
    pub accepted : accept_response P cfg id (marshal_identity P (public_of P id)) frame ≡ ok res

  -- What stands behind a connection of the client: a run of the responder that answered `id`, and
  -- the connection that it makes of its result over `raw`. The two connections fit.
  pub record Secured (log : Signing P → Type 0) (id : Identity P) (raw : P.RawConn) (c : Conn P)
      : Type 0 where
    pub run : Answered P
    pub logged : log (as_responder run)
    pub message : run.init.identity_pub ≡ marshal_identity P (public_of P id)
    pub named : run.remote ≡ public_of P id
    pub d : Conn P
    pub after : HandshakeResult P
    pub made : new_conn P raw (result_of P run.sealed.shared run.remote) false ≡ ok (d, after)
    pub crossed : AreCrossed P c d
    pub empty : (c.read_buf ≡ []) × (d.read_buf ≡ [])
    pub names : d.remote ≡ public_of P id
