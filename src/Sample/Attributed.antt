-- ===== src/Sample/Attributed.antt =====
-- The theorem on whom a response came from, at a sample run of the responder.
use zwing.Base.{◌≡◌, Bytes, [], none, ok, length}
use zwing.Kem.{Encapsulation, xwing_public, xwing_encapsulate}
use zwing.Kem.Agreement.{Agree, encapsulate_total, decapsulate-encapsulate}
use zwing.Identity.{sign, verify, public_of}
use zwing.Identity.Signature.{verify-sign}
use zwing.Messages.{HandshakeResponse}
use zwing.Handshake.{
  HandshakeResult, hs_label_response, result_of, transcript_hash, transcript_input,
}
use zwing.Handshake.Agreement.Steps.{wire_id}
use zwing.Handshake.Agreement.Answer.{IsAnswer, seal_response_lem}
use zwing.Handshake.Attribution.{Answered, Signing, as_initiator, as_responder}
use zwing.Base.{true}
use zwing.Wire.Frames.{frame}
use zwing.Channel.{Conn}
use zwing.Channel.Keys.{end_of}
use zwing.Endpoint.Secured.{Secured}
use zwing.Sample.Machine.{State, start, sample}
use zwing.Sample.Lawful.{sample_laws}
use zwing.Sample.Handshakes.{alice, bob, alice-IsSound, bob-IsSound}
use zwing.Sample.Runs.{for_bob, for_alice, alice_pin, bob_pin, check_pin_refl}
use zwing.Sample.Refused.{recorded, init, accepts}

-- What the responder encapsulated, signed and sent.
abbrev made :
    (e : Encapsulation sample) × (w' : State) × (xwing_encapsulate sample none
        (xwing_public sample alice.xwing)
        start
      ≡ (ok e, w'))
made =
    encapsulate_total sample sample_laws.kem alice.xwing alice-IsSound.xwing sample_laws.entropy
      sample_laws.supplied none start

abbrev run : Answered sample
run = record {
  cfg = for_alice;
  frame = recorded;
  init = init;
  remote = alice_pin;
  accepted = accepts;
  w = start;
  w' = made.1;
  sealed = made.0;
  encapsulated = made.2;
}

abbrev transcript : Bytes
transcript = transcript_hash sample (wire_id sample alice) made.0.ciphertext

abbrev signed :
    (sig : Bytes) × (w' : State) × (sign sample bob hs_label_response transcript start
      ≡ (ok sig, w'))
    × (length sig ≡ 3373)
    × (verify sample (public_of sample bob) hs_label_response transcript sig ≡ ok tt)
signed =
    verify-sign sample sample_laws.signatures sample_laws.supplied bob hs_label_response transcript
      start bob-IsSound

agree : Agree sample alice.xwing made.0
agree =
    decapsulate-encapsulate sample sample_laws.kem alice.xwing alice-IsSound.xwing
      sample_laws.entropy none start made.1 made.0 made.2

abbrev answer :
    IsAnswer sample for_bob alice
      (wire_id sample alice)
      made.0.shared
      made.0.ciphertext
      (wire_id sample bob)
      signed.0
      bob_pin
answer =
    seal_response_lem sample sample_laws.kem sample_laws.signatures sample_laws.aead for_bob alice
      bob bob-IsSound (wire_id sample alice) signed.0 made.0 agree signed.3 signed.4
      (check_pin_refl bob_pin)

abbrev response : HandshakeResponse
response = record { xwing_ciphertext = made.0.ciphertext; encrypted_id = answer.encrypted_id }

abbrev result : HandshakeResult sample
result = result_of sample made.0.shared bob_pin

-- That run is all that the responder has signed.
abbrev IsLogged : Signing sample → Type 0
IsLogged s = s ≡ as_responder run

hashed : Signing sample → Bytes
hashed as_initiator = []
hashed (as_responder a) = transcript_input a.init.identity_pub a.sealed.ciphertext

-- The response is on its way to the initiator.
abbrev answered : State
answered = record start { to_true = frame answer.bytes }

abbrev conn_a : Conn sample
conn_a = end_of sample true result result.key_r2i result.key_i2r
