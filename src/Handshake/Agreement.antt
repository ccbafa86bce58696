-- ===== src/Handshake/Agreement.antt =====
-- Two honest sides that run the handshake (handshake.go) over a connection: their keys and
-- identities at the end.
mod Calm
pub mod Steps
pub mod Answer
pub mod Resumed
pub mod Replayed
use zwing.Base.{
  ◌+◌, ◌<◌, ◌≤◌, ◌^◌, ◌≡◌, refl, sym, subst, ap, ◌∙◌, ◌++◌, [], arith, Bytes, length, length-append,
  some,
}
use zwing.Base.{Outcome, ok, ◌>>=◌, lift, bind_ok, bind_lift_ok, append-nil}
use zwing.Platform.{Platform}
use zwing.Platform.Laws.{KemLaws, EntropyLaws, SignatureLaws, AeadLaws, IsSupplied}
use zwing.Platform.Duplex.{Duplex}
use zwing.Config.{Config}
use zwing.Wire.{read_frame}
use zwing.Wire.Frames.{IsPayload, frame, read_frame_lem}
use zwing.Identity.{Identity, public_of, marshal_identity}
use zwing.Identity.Codec.{IsSound}
use zwing.Messages.{HandshakeInit}
use zwing.Messages.Reading.{field}
use zwing.Handshake.{
  HandshakeResult, result_of, check_pin, send_init, accept_response, await_response, accept_init,
  answer_init,
}
use zwing.Handshake.{respond, run_responder}
use zwing.Wire.Calm.{read_frame-Keeps}
use Steps.{length-derive, wire_id, length-wire_id, send_init_lem, accept_init_lem}
use Answer.{IsAnswer, answer_init_lem}

module _ (P : Platform) where
  -- All libraries work as documented.
  pub record AllLaws : Type 0 where
    pub kem : KemLaws P
    pub entropy : EntropyLaws P
    pub signatures : SignatureLaws P
    pub aead : AeadLaws P
    pub supplied : IsSupplied P

  -- The three phases of a handshake, and what the two results have in common.
  pub record Agreed (a b : P.RawConn) (duplex : Duplex P a b) (cfg_a cfg_b : Config P)
      (id_a id_b : Identity P) (w : P.World) : Type 0 where
    pub w1 : P.World
    pub sent : send_init P a id_a w ≡ (ok (marshal_identity P (public_of P id_a)), w1)
    pub res_b : HandshakeResult P
    pub w2 : P.World
    pub responded : run_responder P b (some cfg_b) w1 ≡ (ok res_b, w2)
    pub consumed : duplex.forward.pending w2 ≡ []
    pub res_a : HandshakeResult P
    pub w3 : P.World
    pub finished :
        await_response P a cfg_a id_a (marshal_identity P (public_of P id_a)) w2 ≡ (ok res_a, w3)
    pub response : Bytes
    pub is_payload : IsPayload response
    pub accepted :
        accept_response P cfg_a id_a (marshal_identity P (public_of P id_a)) response ≡ ok res_a
    pub shared : res_a.shared ≡ res_b.shared
    pub key_i2r : res_a.key_i2r ≡ res_b.key_i2r
    pub key_r2i : res_a.key_r2i ≡ res_b.key_r2i
    pub remote_a : res_a.remote ≡ public_of P id_b
    pub remote_b : res_b.remote ≡ public_of P id_a
    pub key_sizes : (length res_a.key_i2r ≡ 32) × (length res_a.key_r2i ≡ 32)
    pub drained : (duplex.forward.pending w3 ≡ []) × (duplex.backward.pending w3 ≡ [])

  module _ (laws : AllLaws) (a b : P.RawConn) (duplex : Duplex P a b) (cfg_a cfg_b : Config P)
      (id_a id_b : Identity P) where
    -- Two sound identities that expect one another, or nobody in particular, agree over an empty
    -- connection, if the libraries work and entropy is at hand: neither side fails or panics,
    -- both have the same secret and the same two channel keys of 32 bytes, each has the identity
    -- of the other, and nothing is left on the connection.
    pub handshake-Agreed :
        (w : P.World)
        → IsSound P id_a
        → IsSound P id_b
        → cfg_b.local_identity ≡ some id_b
        → check_pin P cfg_a.expected_remote (public_of P id_b) ≡ ok tt
        → check_pin P cfg_b.expected_remote (public_of P id_a) ≡ ok tt
        → duplex.forward.pending w ≡ []
        → duplex.backward.pending w ≡ []
        → Agreed a b duplex cfg_a cfg_b id_a id_b w
    unfolding run_responder respond
    handshake-Agreed w sound_a sound_b local pin_a pin_b empty_ab empty_ba =
        let fwd = duplex.forward in
        let bwd = duplex.backward in
        let ida = wire_id P id_a in
        let hid = length-wire_id P laws.kem laws.signatures id_a sound_a in
        let (sig, w1, e1, hsig, v, p1, q1) =
          send_init_lem P laws.kem laws.signatures laws.supplied a b duplex id_a w sound_a in
        let bytes = field ida ++ field sig in
        let hbytes = length-append (field ida) (field sig) in
        let (w2, e2, p2) =
          read_frame_lem P.host a b fwd bytes [] w1 (omega arith, omega arith)
            (p1 ∙ ap (λ s. s ++ frame bytes) empty_ab ∙ sym (append-nil (frame bytes))) in
        let calm = (read_frame-Keeps P.host b bwd.pending duplex.read_forward).at w1 in
        let q2 = ap (λ p. bwd.pending p.1) (sym e2) ∙ calm ∙ q1 ∙ empty_ba in
        let init : HandshakeInit = record { identity_pub = ida; signature = sig } in
        let (e, sig_b, answer, w3, e3, q3, r3) =
          answer_init_lem P laws.kem laws.signatures laws.aead cfg_a id_a id_b sound_b laws.entropy
            laws.supplied a b duplex init w2 sound_a q2 pin_a in
        let (w4, e4, p4) =
          read_frame_lem P.host b a bwd answer.bytes [] w3 (answer.not_empty, answer.fits)
            (q3 ∙ sym (append-nil (frame answer.bytes))) in
        let still = (read_frame-Keeps P.host a fwd.pending duplex.read_backward).at w3 in
        record {
          w1 = w1;
          sent = e1;
          res_b = result_of P e.shared (public_of P id_a);
          w2 = w3;
          responded =
              ap (λ l. respond P b cfg_b l w1) local
              ∙ bind_ok _ _ w1 e2
              ∙ bind_lift_ok _ _ w2
                  (accept_init_lem P laws.kem laws.signatures cfg_b id_a sig sound_a hsig v pin_b)
              ∙ e3;
          consumed = r3 ∙ p2;
          res_a = result_of P e.shared (public_of P id_b);
          w3 = w4;
          finished = unfold await_response in bind_ok _ _ w3 e4 ∙ ap (λ r. (r, w4)) answer.accepted;
          response = answer.bytes;
          is_payload = (answer.not_empty, answer.fits);
          accepted = answer.accepted;
          shared = unfold result_of in refl;
          key_i2r = unfold result_of in refl;
          key_r2i = unfold result_of in refl;
          remote_a = unfold result_of in refl;
          remote_b = unfold result_of in refl;
          key_sizes = unfold result_of in (length-derive P _ _ 32, length-derive P _ _ 32);
          drained = (ap (λ p. fwd.pending p.1) (sym e4) ∙ still ∙ r3 ∙ p2, p4);
        }
