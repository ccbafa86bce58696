-- ===== src/Handshake/Agreement/Resumed.antt =====
-- The initiator's whole run, where the response to it is on its way already.
use zwing.Base.{◌≡◌, sym, ap, ◌∙◌, [], Bytes, some, ok, bind_ok, append-nil}
use zwing.Platform.{Platform}
use zwing.Platform.Laws.{KemLaws, SignatureLaws, IsSupplied}
use zwing.Platform.Duplex.{Duplex}
use zwing.Config.{Config}
use zwing.Wire.Frames.{IsPayload, frame, read_frame_lem}
use zwing.Identity.{Identity}
use zwing.Identity.Codec.{IsSound}
use zwing.Handshake.{HandshakeResult, accept_response, await_response, initiate, run_initiator}
use zwing.Handshake.Agreement.Steps.{wire_id, send_init_lem}

module _ (P : Platform) (kem : KemLaws P) (signatures : SignatureLaws P) (supplied : IsSupplied P)
    (a b : P.RawConn) (duplex : Duplex P a b) where
  -- A sound identity that finds an acceptable response on the connection returns its result.
  pub run_initiator_ok :
      (cfg : Config P) (id : Identity P) (response : Bytes) (res : HandshakeResult P) (w : P.World)
      → IsSound P id
      → cfg.local_identity ≡ some id
      → IsPayload response
      → accept_response P cfg id (wire_id P id) response ≡ ok res
      → duplex.backward.pending w ≡ frame response
      → (w' : P.World) × (run_initiator P a (some cfg) w ≡ (ok res, w'))
  unfolding run_initiator initiate await_response
  run_initiator_ok cfg id response res w sound local payload accepted ready =
      let (sig, w1, e1, _, _, _, q1) =
        send_init_lem P kem signatures supplied a b duplex id w sound in
      let (w2, e2, _) =
        read_frame_lem P.host b a duplex.backward response [] w1 payload
          (q1 ∙ ready ∙ sym (append-nil (frame response))) in
      (
        w2,
        ap (λ l. initiate P a cfg l w) local
            ∙ bind_ok _ _ w e1
            ∙ bind_ok _ _ w1 e2
            ∙ ap (λ r. (r, w2)) accepted,
      )
