-- ===== src/Endpoint.antt =====
-- dial.go, listen.go and zap.go: the functions that a program calls to get a channel.
pub mod Deadlines
pub mod Entry
pub mod Failures
pub mod Refusals
pub mod Opening
pub mod Session
pub mod Replay
pub mod Secured
use zwing.Base.{ℕ, ◌+◌, Bytes, Bool, true, false, Option, none, some, ltb, if◌then◌else◌}
use zwing.Base.{Error, Proc, Outcome, ok, err, panic, and_then, ◌>>=◌, ◌>>◌, pure, fail, lift}
use zwing.Base.{config_missing_id, nil_dereference}
use zwing.Platform.{Platform}
use zwing.Config.{Config}
use zwing.Handshake.{HandshakeResult, run_initiator, run_responder}
use zwing.Channel.{Conn, new_conn}

unfoldable pub kept : {A B : Type 0} → Outcome A → Outcome B → Outcome A
kept o (panic p) = panic p
kept o _ = o

unfoldable pub dropped : {A : Type 0} → Outcome A → Outcome (Unit {0})
dropped (panic p) = panic p
dropped _ = ok tt

-- `defer d()`: the call runs however `m` ends, and its error is lost.
abbrev pub deferred : {W A B : Type 0} → Proc W A → Proc W B → Proc W A
unfolding kept
deferred m d w = (kept (m w).0 (d (m w).1).0, (d (m w).1).1)

-- `_ = f()`
abbrev pub ignored : {W A : Type 0} → Proc W A → Proc W (Unit {0})
unfolding dropped
ignored m w = (dropped (m w).0, (m w).1)

module _ (P : Platform) where
  -- clientHandshake and serverHandshake, first lines: the deadline, and the deferred call that
  -- clears it.
  unfoldable pub with_deadline :
      {A : Type 0} → P.RawConn → Config P → Proc P.World A → Proc P.World A
  with_deadline raw cfg body =
      if ltb 0 cfg.handshake_timeout
      then (λ w.
          let (t, w1) = P.now w in
          (ignored (P.conn_set_deadline raw (some (t + cfg.handshake_timeout)))
              >> deferred body (P.conn_set_deadline raw none))
            w1)
      else body

  -- Their last lines: what the handshake returned becomes a connection, or the one below is closed.
  unfoldable pub conclude : P.RawConn → Bool → Outcome (HandshakeResult P) → Proc P.World (Conn P)
  conclude raw initiator (ok res) =
      lift (and_then (new_conn P raw res initiator) (λ made. ok made.0))
  conclude raw initiator (err e) = ignored (P.conn_close raw) >> fail e
  conclude raw initiator (panic p) = lift (panic p)

  abbrev pub concluded : P.RawConn → Bool → Proc P.World (HandshakeResult P) → Proc P.World (Conn P)
  concluded raw initiator run w = conclude raw initiator (run w).0 (run w).1

  unfoldable pub client_handshake : P.RawConn → Option (Config P) → Proc P.World (Conn P)
  client_handshake raw none = lift (panic nil_dereference)
  client_handshake raw (some cfg) =
      with_deadline raw cfg (concluded raw true (run_initiator P raw (some cfg)))

  unfoldable pub server_handshake : P.RawConn → Option (Config P) → Proc P.World (Conn P)
  server_handshake raw none = lift (panic nil_dereference)
  server_handshake raw (some cfg) =
      with_deadline raw cfg (concluded raw false (run_responder P raw (some cfg)))

  abbrev pub client : P.RawConn → Option (Config P) → Proc P.World (Conn P)
  client = client_handshake

  abbrev pub server : P.RawConn → Option (Config P) → Proc P.World (Conn P)
  server = server_handshake

  -- cfg == nil || cfg.LocalIdentity == nil
  unfoldable pub is_unconfigured : Option (Config P) → Bool
  is_unconfigured none = true
  is_unconfigured (some cfg) = elim (cfg.local_identity) [ none ↦ true | some id ↦ false ]

  unfoldable pub dial : Bytes → Option (Config P) → Proc P.World (Conn P)
  dial addr cfg =
      if is_unconfigured cfg
      then fail config_missing_id
      else (P.dial_tcp addr >>= λ raw. client_handshake raw cfg)

  pub record Listener : Type 0 where
    pub raw : P.RawListener
    pub cfg : Option (Config P)

  unfoldable pub listen : Bytes → Option (Config P) → Proc P.World Listener
  listen addr cfg =
      if is_unconfigured cfg
      then fail config_missing_id
      else (P.listen_tcp addr >>= λ raw. pure (record { raw = raw; cfg = cfg }))

  unfoldable pub accept : Listener → Proc P.World (Conn P)
  accept l = P.listener_accept l.raw >>= λ raw. server_handshake raw l.cfg

  unfoldable pub close_listener : Listener → Proc P.World (Unit {0})
  close_listener l = P.listener_close l.raw

  abbrev pub listener_addr : Listener → P.Addr
  listener_addr l = P.listener_addr l.raw

  -- zap.NewConn and zap.NewListener, from luxfi/api
  unfoldable pub dial_zap :
      {ZapConn : Type 0} → (Conn P → ZapConn) → Bytes → Option (Config P) → Proc P.World ZapConn
  dial_zap zap_new_conn addr cfg = dial addr cfg >>= λ raw. pure (zap_new_conn raw)

  unfoldable pub listen_zap :
      {ZapListener : Type 0}
      → (Listener → ZapListener)
      → Bytes
      → Option (Config P)
      → Proc P.World ZapListener
  listen_zap zap_new_listener addr cfg = listen addr cfg >>= λ zln. pure (zap_new_listener zln)
