-- ===== src/Handshake/Agreement/Replayed.antt =====
-- The responder's run on an initiator's message that was recorded elsewhere (handshake.go).
use zwing.Base.{
  ◌≡◌, refl, sym, ap, ◌∙◌, [], Bytes, none, some, ok, bind_ok, bind_lift_ok, append-nil, length,
}
use zwing.Platform.{Platform}
use zwing.Platform.Duplex.{Duplex}
use zwing.Config.{Config}
use zwing.Wire.Frames.{IsPayload, frame, read_frame_lem}
use zwing.Wire.Calm.{read_frame-Keeps}
use zwing.Identity.{Identity, public_of}
use zwing.Identity.Codec.{IsSound}
use zwing.Messages.{HandshakeInit}
use zwing.Handshake.{HandshakeResult, result_of, accept_init, respond, run_responder}
use zwing.Handshake.Agreement.{AllLaws}
use zwing.Handshake.Agreement.Steps.{length-derive}
use zwing.Handshake.Agreement.Answer.{answer_init_lem}

module _ (P : Platform) (laws : AllLaws P) (a b : P.RawConn) (duplex : Duplex P a b) where
  -- A run of the responder that succeeded, the peer that it reports, and its keys.
  pub record Replayed (cfg : Config P) (id : Identity P) (w : P.World) : Type 0 where
    pub res : HandshakeResult P
    pub w' : P.World
    pub ran : run_responder P b (some cfg) w ≡ (ok res, w')
    pub remote : res.remote ≡ public_of P id
    pub key_sizes : (length res.key_i2r ≡ 32) × (length res.key_r2i ≡ 32)

  pub run_responder-Replayed :
      (cfg : Config P) (id_a id_b : Identity P) (bytes : Bytes) (init : HandshakeInit) (w : P.World)
      → IsSound P id_a
      → IsSound P id_b
      → cfg.local_identity ≡ some id_b
      → IsPayload bytes
      → accept_init P cfg bytes ≡ ok (init, public_of P id_a)
      → duplex.forward.pending w ≡ frame bytes
      → duplex.backward.pending w ≡ []
      → Replayed cfg id_a w
  unfolding run_responder respond
  run_responder-Replayed cfg id_a id_b bytes init w sound_a sound_b local payload accepted ready
        empty =
      let bwd = duplex.backward in
      let anyone : Config P = record {
        local_identity = some id_a;
        expected_remote = none;
        handshake_timeout = 0;
      } in
      let (w1, e1, p1) =
        read_frame_lem P.host a b duplex.forward bytes [] w payload
          (ready ∙ sym (append-nil (frame bytes))) in
      let calm = (read_frame-Keeps P.host b bwd.pending duplex.read_forward).at w in
      let quiet = ap (λ p. bwd.pending p.1) (sym e1) ∙ calm ∙ empty in
      let (e, sig, answer, w2, e2, q2, r2) =
        answer_init_lem P laws.kem laws.signatures laws.aead anyone id_a id_b sound_b laws.entropy
          laws.supplied a b duplex init w1 sound_a quiet refl in
      record {
        res = result_of P e.shared (public_of P id_a);
        w' = w2;
        ran =
            ap (λ l. respond P b cfg l w) local
            ∙ bind_ok _ _ w e1
            ∙ bind_lift_ok _ _ w1 accepted
            ∙ e2;
        remote = unfold result_of in refl;
        key_sizes = unfold result_of in (length-derive P _ _ 32, length-derive P _ _ 32);
      }
