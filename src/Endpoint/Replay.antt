-- ===== src/Endpoint/Replay.antt =====
-- Server on an initiator's message that was recorded elsewhere (dial.go, handshake.go).
use zwing.Base.{◌≡◌, [], Bytes, some, ok}
use zwing.Platform.{Platform}
use zwing.Platform.Duplex.{Duplex}
use zwing.Config.{Config}
use zwing.Wire.Frames.{IsPayload, frame}
use zwing.Identity.{Identity, public_of}
use zwing.Identity.Codec.{IsSound}
use zwing.Messages.{HandshakeInit}
use zwing.Handshake.{accept_init}
use zwing.Handshake.Agreement.{AllLaws}
use zwing.Handshake.Agreement.Replayed.{run_responder-Replayed}
use zwing.Channel.{Conn, remote_identity}
use zwing.Endpoint.{server}
use zwing.Endpoint.Opening.{server_ok}

module _ (P : Platform) (laws : AllLaws P) (a b : P.RawConn) (duplex : Duplex P a b) where
  -- If the libraries work and a frame is accepted as the HandshakeInit of a sound identity, then
  -- Server without a deadline, on a connection that carries that frame and nothing else, returns
  -- a connection that names that identity, also when the frame was recorded elsewhere and its
  -- sender is not there.
  pub server_replayed :
      (cfg : Config P) (id_a id_b : Identity P) (bytes : Bytes) (init : HandshakeInit) (w : P.World)
      → IsSound P id_a
      → IsSound P id_b
      → cfg.local_identity ≡ some id_b
      → cfg.handshake_timeout ≡ 0
      → IsPayload bytes
      → accept_init P cfg bytes ≡ ok (init, public_of P id_a)
      → duplex.forward.pending w ≡ frame bytes
      → duplex.backward.pending w ≡ []
      → (c : Conn P) × (w' : P.World) × (server P b (some cfg) w ≡ (ok c, w'))
        × (remote_identity P c ≡ public_of P id_a)
  server_replayed cfg id_a id_b bytes init w sound_a sound_b local off payload accepted ready
        empty =
      let r =
        run_responder-Replayed P laws a b duplex cfg id_a id_b bytes init w sound_a sound_b local
          payload accepted ready empty in
      (_, r.w', server_ok P b cfg r.res w r.w' off r.ran r.key_sizes.0 r.key_sizes.1, r.remote)
