-- ===== src/Endpoint/Opening.antt =====
-- From the handshake to the channel: the two ends that newConn makes from an agreed handshake.
use zwing.Base.{
  arith, le→ltb, Bytes, bind_ok, and_then, ◌≡◌, refl, sym, ap, ◌∙◌, length, [], true, false, some,
  ok,
}
use zwing.Platform.{Platform}
use zwing.Platform.Duplex.{Duplex}
use zwing.Config.{Config}
use zwing.Identity.{Identity, public_of}
use zwing.Identity.Codec.{IsSound}
use zwing.Handshake.{HandshakeResult, check_pin, run_initiator, run_responder}
use zwing.Handshake.Agreement.{AllLaws, Agreed, handshake-Agreed}
use zwing.Channel.{Conn, new_conn}
use zwing.Channel.Keys.{end_of, initiator_end, responder_end, erased}
use zwing.Channel.Stream.{InStep, idle-InStep}
use zwing.Endpoint.{
  client, server, dial, is_unconfigured, client_handshake, server_handshake, with_deadline,
  conclude,
}

module _ (P : Platform) where
  -- Without a deadline, an entry point returns the connection that newConn makes.
  pub client_ok :
      (conn : P.RawConn) (cfg : Config P) (res : HandshakeResult P) (w w' : P.World)
      → cfg.handshake_timeout ≡ 0
      → run_initiator P conn (some cfg) w ≡ (ok res, w')
      → length res.key_i2r ≡ 32
      → length res.key_r2i ≡ 32
      → client P conn (some cfg) w ≡ (ok (end_of P conn res res.key_r2i res.key_i2r), w')
  unfolding client_handshake with_deadline conclude and_then
  client_ok conn cfg res w w' off run hi hr =
      rw (le→ltb 0 cfg.handshake_timeout (omega (arith, off)), run, initiator_end P conn res hi hr)

  pub server_ok :
      (conn : P.RawConn) (cfg : Config P) (res : HandshakeResult P) (w w' : P.World)
      → cfg.handshake_timeout ≡ 0
      → run_responder P conn (some cfg) w ≡ (ok res, w')
      → length res.key_i2r ≡ 32
      → length res.key_r2i ≡ 32
      → server P conn (some cfg) w ≡ (ok (end_of P conn res res.key_i2r res.key_r2i), w')
  unfolding server_handshake with_deadline conclude and_then
  server_ok conn cfg res w w' off run hi hr =
      rw (le→ltb 0 cfg.handshake_timeout (omega (arith, off)), run, responder_end P conn res hi hr)

  pub dial_ok :
      (addr : Bytes) (conn : P.RawConn) (cfg : Config P) (c : Conn P) (w w1 w' : P.World)
      → is_unconfigured P (some cfg) ≡ false
      → P.dial_tcp addr w ≡ (ok conn, w1)
      → client P conn (some cfg) w1 ≡ (ok c, w')
      → dial P addr (some cfg) w ≡ (ok c, w')
  unfolding dial
  dial_ok addr conn cfg c w w1 w' configured dialled opened =
      rw configured (bind_ok _ _ w dialled ∙ opened)

  -- A handshake that both sides finished, and the two ends of a channel that follow from it: in
  -- step in both directions, with nothing under way.
  pub record Opened (a b : P.RawConn) (duplex : Duplex P a b) (cfg_a cfg_b : Config P)
      (id_a id_b : Identity P) (w : P.World) : Type 0 where
    pub agreed : Agreed P a b duplex cfg_a cfg_b id_a id_b w
    pub conn_a : Conn P
    pub conn_b : Conn P
    pub made_a : new_conn P a agreed.res_a true ≡ ok (conn_a, erased P agreed.res_a)
    pub made_b : new_conn P b agreed.res_b false ≡ ok (conn_b, erased P agreed.res_b)
    pub kept : (conn_a.read_buf ≡ []) × (conn_b.read_buf ≡ [])
    pub remote_a : conn_a.remote ≡ public_of P id_b
    pub remote_b : conn_b.remote ≡ public_of P id_a
    pub forward : InStep P a b duplex.forward conn_a conn_b agreed.w3 []
    pub backward : InStep P b a duplex.backward conn_b conn_a agreed.w3 []

  module _ (laws : AllLaws P) (a b : P.RawConn) (duplex : Duplex P a b) (cfg_a cfg_b : Config P)
      (id_a id_b : Identity P) where
    -- Two sound identities that expect one another, or nobody in particular, get a channel over
    -- an empty connection, if the libraries work and entropy is at hand: both handshakes and both
    -- newConn succeed, each end names the other's identity, and in each direction what the one
    -- end seals next is what the other opens next.
    pub handshake-Opened :
        (w : P.World)
        → IsSound P id_a
        → IsSound P id_b
        → cfg_b.local_identity ≡ some id_b
        → check_pin P cfg_a.expected_remote (public_of P id_b) ≡ ok tt
        → check_pin P cfg_b.expected_remote (public_of P id_a) ≡ ok tt
        → duplex.forward.pending w ≡ []
        → duplex.backward.pending w ≡ []
        → Opened a b duplex cfg_a cfg_b id_a id_b w
    handshake-Opened w sound_a sound_b local pin_a pin_b empty_ab empty_ba =
        let g =
          handshake-Agreed P laws a b duplex cfg_a cfg_b id_a id_b w sound_a sound_b local pin_a
            pin_b empty_ab empty_ba in
        let sizes = g.key_sizes in
        let drained = g.drained in
        record {
          agreed = g;
          conn_a = end_of P a g.res_a g.res_a.key_r2i g.res_a.key_i2r;
          conn_b = end_of P b g.res_b g.res_b.key_i2r g.res_b.key_r2i;
          made_a = initiator_end P a g.res_a sizes.0 sizes.1;
          made_b =
              responder_end P b g.res_b (ap length (sym g.key_i2r) ∙ sizes.0)
                (ap length (sym g.key_r2i) ∙ sizes.1);
          kept = (refl, refl);
          remote_a = g.remote_a;
          remote_b = g.remote_b;
          forward =
              idle-InStep P a b duplex.forward _ _ g.w3 (refl, refl) (ap P.chacha_new g.key_i2r)
                (refl, refl) drained.0;
          backward =
              idle-InStep P b a duplex.backward _ _ g.w3 (refl, refl)
                (ap P.chacha_new (sym g.key_r2i)) (refl, refl) drained.1;
        }
