-- ===== src/Endpoint/Refusals.antt =====
-- What the entry points do without an identity.
use zwing.Base.{◌≡◌, refl, Bytes, true, Option, none, some}
use zwing.Base.{err, panic, bind_err}
use zwing.Base.{config_missing_id, nil_dereference}
use zwing.Platform.{Platform}
use zwing.Config.{Config}
use zwing.Channel.{Conn}
use zwing.Endpoint.{client_handshake, server_handshake}
use zwing.Endpoint.{is_unconfigured, dial, listen, Listener, dial_zap, listen_zap, client, server}

module _ (P : Platform) where
  -- What the functions that take an address return without an identity: an error, at once.
  pub record Refused {ZapConn ZapListener : Type 0} (zap_new_conn : Conn P → ZapConn)
      (zap_new_listener : Listener P → ZapListener) (addr : Bytes) (cfg : Option (Config P))
      (w : P.World) : Type 0 where
    pub dial : dial P addr cfg w ≡ (err config_missing_id, w)
    pub listen : listen P addr cfg w ≡ (err config_missing_id, w)
    pub dial_zap : dial_zap P zap_new_conn addr cfg w ≡ (err config_missing_id, w)
    pub listen_zap : listen_zap P zap_new_listener addr cfg w ≡ (err config_missing_id, w)

  is_unconfigured_ok :
      (cfg : Option (Config P))
      → ((c : Config P) → cfg ≡ some c → c.local_identity ≡ none)
      → is_unconfigured P cfg ≡ true
  unfolding is_unconfigured
  is_unconfigured_ok none h = refl
  is_unconfigured_ok (some c) h = rw (h c refl) refl

  -- Given no configuration, or one without an identity, Dial, Listen, DialZAP and ListenZAP
  -- return ErrConfigMissingID before they touch the network. Client and Server, given no
  -- configuration, panic instead.
  pub unconfigured-Refused :
      {ZapConn ZapListener : Type 0} (zap_new_conn : Conn P → ZapConn)
      (zap_new_listener : Listener P → ZapListener) (addr : Bytes) (cfg : Option (Config P))
      (raw : P.RawConn) (w : P.World)
      → ((c : Config P) → cfg ≡ some c → c.local_identity ≡ none)
      → Refused zap_new_conn zap_new_listener addr cfg w
        × (client P raw none w ≡ (panic nil_dereference, w))
        × (server P raw none w ≡ (panic nil_dereference, w))
  unfolding dial listen dial_zap listen_zap client_handshake server_handshake
  unconfigured-Refused zap_new_conn zap_new_listener addr cfg raw w h =
      let e = is_unconfigured_ok cfg h in
      (
        record {
          dial = rw e;
          listen = rw e;
          dial_zap = bind_err _ _ w (rw e);
          listen_zap = bind_err _ _ w (rw e);
        },
        refl,
        refl,
      )
