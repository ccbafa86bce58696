-- ===== src/Sample/Refused.antt =====
-- The theorems on runs that fail, and on the server given a recorded message.
use zwing.Base.{◌≡◌, ◌↔◌, refl, arith, true, false, some, ◌++◌, Bytes, ok, err, external}
use zwing.Wire.Frames.{IsPayload, frame}
use zwing.Identity.{public_of, verify, sign}
use zwing.Identity.Signature.{verify-sign}
use zwing.Messages.{HandshakeInit}
use zwing.Messages.Reading.{field}
use zwing.Handshake.{accept_init, hs_label_init, run_responder}
use zwing.Handshake.Agreement.Steps.{wire_id, accept_init_lem, length-wire_id}
use zwing.Handshake.Failures.{RespondFailed, IsRunFailure, run_responder_err_iff}
use zwing.Channel.{Conn, remote_identity}
use zwing.Endpoint.{server}
use zwing.Endpoint.Replay.{server_replayed}
use zwing.Sample.Machine.{State, start, sample}
use zwing.Sample.Lawful.{sample_laws, sample_duplex, pending-to_false, pending-backward}
use zwing.Sample.Handshakes.{alice, bob, alice-IsSound, bob-IsSound}
use zwing.Sample.Runs.{for_alice, check_pin_refl, alice_pin}
use zwing.Base.{length, length-append}

run_responder_err_iff_example :
    (run_responder sample false (some for_alice) start ≡ (err (external 0), start))
    ↔ IsRunFailure sample false for_alice
        (RespondFailed sample false for_alice)
        for_alice.local_identity
        start
        start
        (external 0)
run_responder_err_iff_example =
    run_responder_err_iff sample false for_alice start start (external 0)

-- What the initiator once signed.
abbrev pub signed :
    (sig : Bytes) × (w' : State) × (sign sample alice hs_label_init (wire_id sample alice) start
      ≡ (ok sig, w'))
    × (length sig ≡ 3373)
    × (verify sample (public_of sample alice) hs_label_init (wire_id sample alice) sig ≡ ok tt)
signed =
    verify-sign sample sample_laws.signatures sample_laws.supplied alice hs_label_init
      (wire_id sample alice) start alice-IsSound

abbrev pub recorded : Bytes
recorded = field (wire_id sample alice) ++ field signed.0

abbrev pub init : HandshakeInit
init = record { identity_pub = wire_id sample alice; signature = signed.0 }

-- It is on its way again, and nobody waits for an answer.
abbrev replayed : State
replayed = record start { to_false = frame recorded }

pub accepts : accept_init sample for_alice recorded ≡ ok (init, public_of sample alice)
accepts =
    accept_init_lem sample sample_laws.kem sample_laws.signatures for_alice alice signed.0
      alice-IsSound signed.3 signed.4 (check_pin_refl alice_pin)

recorded-IsPayload : IsPayload recorded
recorded-IsPayload =
    let size = length-wire_id sample sample_laws.kem sample_laws.signatures alice alice-IsSound in
    let fields = length-append (field (wire_id sample alice)) (field signed.0) in
    (omega (arith, size, signed.3, fields), omega (arith, size, signed.3, fields))

server_replayed_example :
    (c : Conn sample) × (w' : State) × (server sample false (some for_alice) replayed ≡ (ok c, w'))
    × (remote_identity sample c ≡ public_of sample alice)
server_replayed_example =
    server_replayed sample sample_laws true false sample_duplex for_alice alice bob recorded init
      replayed alice-IsSound bob-IsSound refl refl recorded-IsPayload accepts
      (pending-to_false replayed) (pending-backward replayed)
