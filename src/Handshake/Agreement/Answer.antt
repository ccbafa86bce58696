-- ===== src/Handshake/Agreement/Answer.antt =====
-- The responder's answer, and the initiator's acceptance of it.
use zwing.Base.{
  ◌^◌, ◌<◌, ◌≤◌, ◌≡◌, sym, ap, ◌∙◌, ◌++◌, [], arith, Bytes, length, length-append, none,
}
use zwing.Base.{ok, and_then, bind_ok, bind_lift_ok}
use zwing.Platform.{Platform}
use zwing.Platform.Laws.{KemLaws, EntropyLaws, SignatureLaws, AeadLaws, IsSupplied}
use zwing.Platform.Duplex.{Duplex}
use zwing.Config.{Config}
use zwing.Wire.Frames.{frame, write_frame_lem}
use zwing.Kem.{Encapsulation, xwing_public}
use zwing.Kem.Agreement.{Agree, decapsulate-encapsulate, encapsulate_total}
use zwing.Identity.{Identity, IdentityPublic, public_of, verify}
use zwing.Identity.Codec.{IsSound, public_of-IsSized, parse-marshal_identity}
use zwing.Identity.Signature.{verify-sign}
use zwing.Aead.Nonces.{aead_open-aead_seal}
use zwing.Messages.{HandshakeInit, HandshakeResponse, parse_handshake_response}
use zwing.Messages.Reading.{field}
use zwing.Messages.RoundTrip.{build_resp_id_payload_ok, split-build_resp_id_payload}
use zwing.Messages.Response.{marshal_handshake_response_ok, parse-marshal_handshake_response}
use zwing.Handshake.{derive, result_of, check_pin, answer_init}
use zwing.Handshake.{seal_response, accept_response, transcript_hash, hs_label_response}
use zwing.Handshake.{resp_id_key_label, resp_id_nonce_label}
use zwing.Wire.Calm.{write_frame-Keeps}
use zwing.Handshake.Agreement.Calm.{sign-Keeps, xwing_encapsulate-Keeps}
use zwing.Handshake.Agreement.Steps.{wire_id, length-wire_id, length-derive}

module _ (P : Platform) where
  -- A frame that carries the responder's sealed identity, and that the initiator accepts.
  pub record IsAnswer (cfg : Config P) (id_a : Identity P) (init_pub : Bytes)
      (shared ct id_pub sig : Bytes) (remote : IdentityPublic P) : Type 0 where
    pub bytes : Bytes
    pub sealed : seal_response P shared ct id_pub sig ≡ ok bytes
    pub not_empty : 0 < length bytes
    pub fits : length bytes ≤ 2 ^ 20
    pub encrypted_id : Bytes
    pub parsed :
        parse_handshake_response bytes
        ≡ ok (record { xwing_ciphertext = ct; encrypted_id = encrypted_id })
    pub accepted : accept_response P cfg id_a init_pub bytes ≡ ok (result_of P shared remote)

  module _ (kem : KemLaws P) (signatures : SignatureLaws P) (aead : AeadLaws P) (cfg : Config P)
      (id_a id_b : Identity P) (sound : IsSound P id_b) where
    pub seal_response_lem :
        (init_pub sig : Bytes) (e : Encapsulation P)
        → Agree P id_a.xwing e
        → length sig ≡ 3373
        → verify P
            (public_of P id_b)
            hs_label_response
            (transcript_hash P init_pub e.ciphertext)
            sig
          ≡ ok tt
        → check_pin P cfg.expected_remote (public_of P id_b) ≡ ok tt
        → IsAnswer cfg id_a init_pub e.shared e.ciphertext (wire_id P id_b) sig (public_of P id_b)
    seal_response_lem init_pub sig e agree hsig v pin =
        let id_pub = wire_id P id_b in
        let hid = length-wire_id P kem signatures id_b sound in
        let text = field id_pub ++ field sig in
        let htext = length-append (field id_pub) (field sig) in
        let key = derive P e.shared resp_id_key_label 32 in
        let hkey = length-derive P e.shared resp_id_key_label 32 in
        let (sealed, es, eo, hl) =
          aead_open-aead_seal P aead key resp_id_nonce_label e.ciphertext text hkey in
        let resp : HandshakeResponse = record {
          xwing_ciphertext = e.ciphertext;
          encrypted_id = sealed;
        } in
        let built = build_resp_id_payload_ok id_pub sig (omega arith) (omega arith) in
        let split =
          rw built at (split-build_resp_id_payload id_pub sig (omega arith) (omega arith)) in
        let made = marshal_handshake_response_ok resp (omega arith) in
        let parsed =
          rw made at
            (parse-marshal_handshake_response resp agree.ciphertext_length (omega arith)) in
        let known =
          parse-marshal_identity P kem signatures _
            (public_of-IsSized P kem signatures id_b sound) in
        let hbytes = length-append e.ciphertext (field sealed) in
        record {
          bytes = e.ciphertext ++ field sealed;
          sealed = unfold seal_response and_then in rw (built, es, made);
          not_empty = omega (arith, agree.ciphertext_length);
          fits = omega (arith, agree.ciphertext_length);
          encrypted_id = sealed;
          parsed = unfold and_then in parsed;
          accepted =
              unfold accept_response and_then in
              rw (parsed, agree.decapsulates, agree.same_secret, eo, split, known, v, pin);
        }

    -- With entropy at hand the responder answers an accepted initiator.
    pub answer_init_lem :
        EntropyLaws P
        → IsSupplied P
        → (a b : P.RawConn) (duplex : Duplex P a b) (init : HandshakeInit) (w : P.World)
        → IsSound P id_a
        → duplex.backward.pending w ≡ []
        → check_pin P cfg.expected_remote (public_of P id_b) ≡ ok tt
        → (e : Encapsulation P) × (sig : Bytes) × (answer : IsAnswer cfg id_a init.identity_pub
            e.shared e.ciphertext
            (wire_id P id_b)
            sig
            (public_of P id_b))
          × (w' : P.World) × (answer_init P b id_b init (public_of P id_a) w
              ≡ (ok (result_of P e.shared (public_of P id_a)), w'))
          × (duplex.backward.pending w' ≡ frame answer.bytes)
          × (duplex.forward.pending w' ≡ duplex.forward.pending w)
    unfolding answer_init
    answer_init_lem ent sup a b duplex init w sound_a empty pin =
        let pending = duplex.backward.pending in
        let other = duplex.forward.pending in
        let pk = xwing_public P id_a.xwing in
        let (e, w1, e1) = encapsulate_total P kem id_a.xwing sound_a.xwing ent sup none w in
        let agree = decapsulate-encapsulate P kem id_a.xwing sound_a.xwing ent none w w1 e e1 in
        let transcript = transcript_hash P init.identity_pub e.ciphertext in
        let (sig, w2, e2, hsig, v) =
          verify-sign P signatures sup id_b hs_label_response transcript w1 sound in
        let answer = seal_response_lem init.identity_pub sig e agree hsig v pin in
        let (w3, e3, p3) = write_frame_lem P.host b a duplex.backward answer.bytes w2 answer.fits in
        let calm1 =
          (xwing_encapsulate-Keeps P pending duplex.mlkem_backward duplex.entropy_backward none
              pk).at
            w in
        let calm2 =
          (sign-Keeps P pending duplex.sign_backward id_b hs_label_response transcript).at w1 in
        let still1 =
          (xwing_encapsulate-Keeps P other duplex.mlkem_forward duplex.entropy_forward none pk).at
            w in
        let still2 =
          (sign-Keeps P other duplex.sign_forward id_b hs_label_response transcript).at w1 in
        let still3 = (write_frame-Keeps P.host b other duplex.write_backward answer.bytes).at w2 in
        (
          e,
          sig,
          answer,
          w3,
          bind_ok _ _ w e1
              ∙ bind_ok _ _ w1 e2
              ∙ bind_lift_ok _ _ w2 answer.sealed
              ∙ bind_ok _ _ w2 e3,
          p3
              ∙ ap (λ s. s ++ frame answer.bytes)
                  (ap (λ p. pending p.1) (sym e2)
                    ∙ calm2
                    ∙ ap (λ p. pending p.1) (sym e1)
                    ∙ calm1
                    ∙ empty),
          ap (λ p. other p.1) (sym e3)
              ∙ still3
              ∙ ap (λ p. other p.1) (sym e2)
              ∙ still2
              ∙ ap (λ p. other p.1) (sym e1)
              ∙ still1,
        )
