-- ===== src/Endpoint/Failures.antt =====
-- How Dial and Accept fail (dial.go, listen.go), and what becomes of the connection below.
use zwing.Base.{
  ◌≡◌, sym, ap, arith, Bool, true, false, some, Error, Outcome, ok, err, panic, fail, and_then,
}
use zwing.Base.Returns.{IsReturn-err}
use zwing.Base.{
  Bytes, Option-cases, inl, inr, none, config_missing_id, bind-eq_err, at_once, later, ◌∙◌,
}
use zwing.Base.{err_inj}
use zwing.Platform.{Platform}
use zwing.Config.{Config}
use zwing.Aead.{must_chacha20}
use zwing.Handshake.{HandshakeResult, run_initiator, run_responder}
use zwing.Channel.{Conn, new_conn}
use zwing.Endpoint.{
  conclude, concluded, client, server, client_handshake, server_handshake, dial, accept, Listener,
  is_unconfigured,
}
use zwing.Endpoint.Deadlines.{ignored-then, Timed, with_deadline-Timed, if-cases}

module _ (P : Platform) where
  new_conn_no_err :
      (conn : P.RawConn) (initiator : Bool) (res : HandshakeResult P) (e : Error)
      → ¬ (and_then (new_conn P conn res initiator) (λ made. ok made.0) ≡ err e)
  unfolding new_conn must_chacha20 and_then
  new_conn_no_err conn initiator res e h = ground arith

  conclude-err :
      (conn : P.RawConn) (initiator : Bool) (run : Outcome (HandshakeResult P)) (w w' : P.World)
      (e : Error)
      → conclude P conn initiator run w ≡ (err e, w')
      → (run ≡ err e) × (w' ≡ (P.conn_close conn w).1)
  unfolding conclude
  conclude-err conn initiator (ok res) w w' e h =
      absurd (new_conn_no_err conn initiator res e (ap (λ q. q.0) h))
  conclude-err conn initiator (err f) w w' e h =
      let k = ignored-then (P.conn_close conn) (fail f) w w' (IsReturn-err e) h in
      (ap err (err_inj (ap (λ q. q.0) k)), ap (λ q. q.1) (sym k))
  conclude-err conn initiator (panic p) w w' e h = ground arith

  -- A handshake that ran between two worlds and failed, and the close after it.
  pub record ClosedAfter (conn : P.RawConn) (w0 w1 : P.World)
      (run : P.World → Outcome (HandshakeResult P) × P.World) (e : Error) : Type 0 where
    pub failed : (run w0).0 ≡ err e
    pub closed : w1 ≡ (P.conn_close conn (run w0).1).1

  pub data ClientFailed (conn : P.RawConn) (cfg : Config P) (w w' : P.World) (e : Error)
      : Type 0 where
    client_failed :
        (timed : Timed P {A = Conn P} conn cfg
          (concluded P conn true (run_initiator P conn (some cfg)))
          w
          w'
          (err e))
        → ClosedAfter conn timed.w0 timed.w1 (run_initiator P conn (some cfg)) e
        → ClientFailed conn cfg w w' e

  pub data ServerFailed (conn : P.RawConn) (cfg : Config P) (w w' : P.World) (e : Error)
      : Type 0 where
    server_failed :
        (timed : Timed P {A = Conn P} conn cfg
          (concluded P conn false (run_responder P conn (some cfg)))
          w
          w'
          (err e))
        → ClosedAfter conn timed.w0 timed.w1 (run_responder P conn (some cfg)) e
        → ServerFailed conn cfg w w' e

  -- When Client, given a configuration, returns an error, it is the error of the initiator's
  -- handshake, the connection below was closed after that, and a deadline that the configuration
  -- asked for was set before the handshake and cleared after the close.
  client-ClientFailed :
      (conn : P.RawConn) (cfg : Config P) (w w' : P.World) (e : Error)
      → client P conn (some cfg) w ≡ (err e, w')
      → ClientFailed conn cfg w w' e
  unfolding client_handshake
  client-ClientFailed conn cfg w w' e h =
      let timed =
        with_deadline-Timed P conn cfg (concluded P conn true (run_initiator P conn (some cfg))) w
          w' (err e) h (IsReturn-err e) in
      let (failed, closed) = conclude-err conn true _ _ timed.w1 e timed.run in
      client_failed timed (record { failed = failed; closed = closed })

  -- When Server, given a configuration, returns an error, it is the error of the responder's
  -- handshake, the connection below was closed after that, and a deadline that the configuration
  -- asked for was set before the handshake and cleared after the close.
  server-ServerFailed :
      (conn : P.RawConn) (cfg : Config P) (w w' : P.World) (e : Error)
      → server P conn (some cfg) w ≡ (err e, w')
      → ServerFailed conn cfg w w' e
  unfolding server_handshake
  server-ServerFailed conn cfg w w' e h =
      let timed =
        with_deadline-Timed P conn cfg (concluded P conn false (run_responder P conn (some cfg))) w
          w' (err e) h (IsReturn-err e) in
      let (failed, closed) = conclude-err conn false _ _ timed.w1 e timed.run in
      server_failed timed (record { failed = failed; closed = closed })

  pub data DialFailed (addr : Bytes) (cfg : Config P) (w w' : P.World) (e : Error) : Type 0 where
    unconfigured :
        cfg.local_identity ≡ none → e ≡ config_missing_id → w' ≡ w → DialFailed addr cfg w w' e
    not_dialled : P.dial_tcp addr w ≡ (err e, w') → DialFailed addr cfg w w' e
    not_opened :
        (conn : P.RawConn) (w1 : P.World)
        → P.dial_tcp addr w ≡ (ok conn, w1)
        → ClientFailed conn cfg w1 w' e
        → DialFailed addr cfg w w' e

  unconfigured-none :
      (cfg : Config P) → is_unconfigured P (some cfg) ≡ true → cfg.local_identity ≡ none
  unfolding is_unconfigured
  unconfigured-none cfg h = elim (Option-cases cfg.local_identity) [
    | inl missing ↦ missing
    | inr (id, there) ↦ absurd_here (rw there at h)
  ]
    where
      absurd_here : false ≡ true → cfg.local_identity ≡ none
      absurd_here k = cc

  -- When Dial, given a configuration, returns an error, then: it is ErrConfigMissingID, the
  -- identity is missing and nothing was touched; or it is the error of dialling; or it is the
  -- error of the initiator's handshake on the dialled connection, which was closed after that,
  -- and a deadline that the configuration asked for was set before the handshake and cleared
  -- after the close.
  pub dial-DialFailed :
      (addr : Bytes) (cfg : Config P) (w w' : P.World) (e : Error)
      → dial P addr (some cfg) w ≡ (err e, w')
      → DialFailed addr cfg w w' e
  unfolding dial
  dial-DialFailed addr cfg w w' e h = elim (if-cases P (is_unconfigured P (some cfg)) _ _ w h) [
    | inl (missing, refused) ↦
        unconfigured (unconfigured-none cfg missing) (err_inj (ap (λ q. q.0) (sym refused)))
          (ap (λ q. q.1) (sym refused))
    | inr (_, run) ↦ elim (bind-eq_err (P.dial_tcp addr) _ w w' run) [
      | at_once failed ↦ not_dialled failed
      | later conn w1 dialled run1 ↦
          not_opened conn w1 dialled (client-ClientFailed conn cfg w1 w' e run1)
    ]
  ]

  pub data AcceptFailed (l : Listener P) (cfg : Config P) (w w' : P.World) (e : Error)
      : Type 0 where
    not_accepted : P.listener_accept l.raw w ≡ (err e, w') → AcceptFailed l cfg w w' e
    not_served :
        (conn : P.RawConn) (w1 : P.World)
        → P.listener_accept l.raw w ≡ (ok conn, w1)
        → ServerFailed conn cfg w1 w' e
        → AcceptFailed l cfg w w' e

  -- When Accept of a listener with a configuration returns an error, then: it is the error of the
  -- listener below; or it is the error of the responder's handshake on the accepted connection,
  -- which was closed after that, and a deadline that the configuration asked for was set before
  -- the handshake and cleared after the close.
  pub accept-AcceptFailed :
      (l : Listener P) (cfg : Config P) (w w' : P.World) (e : Error)
      → l.cfg ≡ some cfg
      → accept P l w ≡ (err e, w')
      → AcceptFailed l cfg w w' e
  unfolding accept
  accept-AcceptFailed l cfg w w' e is h = elim (bind-eq_err (P.listener_accept l.raw) _ w w' h) [
    | at_once failed ↦ not_accepted failed
    | later conn w1 accepted run ↦ not_served conn w1 accepted (
        server-ServerFailed conn cfg w1 w' e
          (ap (λ g. server_handshake P conn g w1) (sym is) ∙ run))
  ]
