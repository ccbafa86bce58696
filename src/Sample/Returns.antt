-- ===== src/Sample/Returns.antt =====
-- The theorems on calls that fail or return, at the sample platform.
use zwing.Base.{
  Bytes, ℕ, Bool, Bool-cases, inl, inr, ltb, length, ◌≡◌, refl, true, false, none, some, err,
  external, [], ◌∷◌, ◌>>=◌,
}
use zwing.Base.Returns.{IsReturn, Returns, IsReturn-ok, IsReturn-err}
use zwing.Platform.Laws.{IsPanicFree}
use zwing.Config.{Config}
use zwing.Handshake.{send_init, await_response, run_initiator, run_responder, initiate, respond}
use zwing.Handshake.Total.{run_initiator-Returns, run_responder-Returns}
use zwing.Base.{bind_ok, ok, sym, ◌∙◌}
use zwing.Wire.{read_frame}
use zwing.Endpoint.{
  dial, accept, Listener, is_unconfigured, server, client_handshake, server_handshake,
  with_deadline, conclude, kept, dropped,
}
use zwing.Endpoint.Failures.{DialFailed, dial-DialFailed, AcceptFailed, accept-AcceptFailed}
use zwing.Handshake.Failures.{InitiateFailed, IsRunFailure, run_initiator_err_iff}
use zwing.Base.{◌↔◌}
use zwing.Sample.Primitives.{multiply, untag}
use zwing.Base.{bytes_eq, zeros, Bool-cases, inl, inr, ◌-◌}
use zwing.Sample.Machine.{State, start, sample, send, receive}
use zwing.Handshake.Agreement.Steps.{send_init_lem, wire_id}
use zwing.Sample.Lawful.{sample_laws, sample_duplex, pending-backward}
use zwing.Sample.Handshakes.{alice, bob, alice-IsSound, bob-IsSound}
use zwing.Sample.Runs.{for_bob, for_alice}

receive-Returns : (c : Bool) (n : ℕ) → Returns (receive c n)
unfolding receive
receive-Returns true n = record {
  at = λ w. elim (Bool-cases (ltb (length w.to_true) n)) [
    | inl short ↦ rw short (IsReturn-err _)
    | inr long ↦ rw long (IsReturn-ok _)
  ];
}
receive-Returns false n = record {
  at = λ w. elim (Bool-cases (ltb (length w.to_false) n)) [
    | inl short ↦ rw short (IsReturn-err _)
    | inr long ↦ rw long (IsReturn-ok _)
  ];
}

untag-IsReturn : (n : ℕ) (bs : Bytes) → IsReturn (untag n bs)
unfolding untag
untag-IsReturn n [] = IsReturn-err _
untag-IsReturn n (k ∷ bs) = elim (Bool-cases (bytes_eq bs (zeros (n - 1)))) [
  | inl same ↦ rw same (IsReturn-ok k)
  | inr other ↦ rw other (IsReturn-err _)
]

send-Returns : (c : Bool) (bs : Bytes) → Returns (send c bs)
unfolding send
send-Returns true bs = record { at = λ w. IsReturn-ok _ }
send-Returns false bs = record { at = λ w. IsReturn-ok _ }

sample_free : IsPanicFree sample
unfolding multiply
sample_free = record {
  mlkem_public_from_bytes = untag-IsReturn 1184;
  mlkem_encapsulate = λ pk r. record { at = λ w. IsReturn-ok _ };
  mlkem_decapsulate = λ sk ct. IsReturn-ok _;
  x25519 = λ k u. IsReturn-ok _;
  mldsa_public_from_bytes = untag-IsReturn 1952;
  mldsa_sign_ctx = λ sk r digest ctx. record { at = λ w. IsReturn-ok _ };
  entropy_read_full = λ r n. record { at = λ w. IsReturn-ok _ };
  conn_read_full = receive-Returns;
  conn_write = send-Returns;
}

run_initiator-Returns_example : Returns (run_initiator sample true (some for_bob))
run_initiator-Returns_example =
    run_initiator-Returns sample sample_free sample_laws.kem sample_laws.signatures sample_laws.aead
      true for_bob alice refl alice-IsSound

run_responder-Returns_example : Returns (run_responder sample false (some for_alice))
run_responder-Returns_example =
    run_responder-Returns sample sample_free sample_laws.kem sample_laws.signatures sample_laws.aead
      false for_alice bob refl bob-IsSound

abbrev timed_bob : Config sample
timed_bob = record for_alice { handshake_timeout = 5 }

abbrev closed : State
closed = record start { closed = true }

-- Nothing arrives.
server_fails : server sample false (some timed_bob) start ≡ (err (external 0), closed)
unfolding server_handshake with_deadline conclude kept dropped run_responder respond read_frame
    receive ◌>>=◌
server_fails = refl

abbrev listener : Listener sample
listener = record { raw = tt; cfg = some timed_bob }

accept_fails : accept sample listener start ≡ (err (external 0), closed)
unfolding accept ◌>>=◌
accept_fails = server_fails

accept-AcceptFailed_example : AcceptFailed sample listener timed_bob start closed (external 0)
accept-AcceptFailed_example =
    accept-AcceptFailed sample listener timed_bob start closed (external 0) refl accept_fails

-- The peer never answers.
abbrev timed_alice : Config sample
timed_alice = record for_bob { handshake_timeout = 5 }

abbrev waiting : State
waiting = record start { deadline = some 1005 }

sent :
    (sig : Bytes) × (w1 : State) × (send_init sample true alice waiting
      ≡ (ok (wire_id sample alice), w1))
    × (w1.to_true ≡ [])
sent =
    let (sig, w1, e, hsig, v, p, q) =
      send_init_lem sample sample_laws.kem sample_laws.signatures sample_laws.supplied true false
        sample_duplex alice waiting alice-IsSound in
    (sig, w1, e, sym (pending-backward w1) ∙ q ∙ pending-backward waiting)

hears_nothing :
    (cfg : Config sample) (id_pub : Bytes) (w : State)
    → w.to_true ≡ []
    → await_response sample true cfg alice id_pub w ≡ (err (external 0), w)
unfolding await_response read_frame receive ◌>>=◌
hears_nothing cfg id_pub w empty = rw empty

unanswered : run_initiator sample true (some timed_alice) waiting ≡ (err (external 0), sent.1)
unfolding run_initiator initiate
unanswered = bind_ok _ _ waiting sent.2 ∙ hears_nothing timed_alice _ sent.1 sent.3

abbrev gone : State
gone = record sent.1 { deadline = none; closed = true }

dial_fails : dial sample [] (some timed_alice) start ≡ (err (external 0), gone)
unfolding dial is_unconfigured client_handshake with_deadline conclude kept dropped ◌>>=◌
dial_fails = rw unanswered

dial-DialFailed_example : DialFailed sample [] timed_alice start gone (external 0)
dial-DialFailed_example = dial-DialFailed sample [] timed_alice start gone (external 0) dial_fails

run_initiator_err_iff_example :
    (run_initiator sample true (some timed_alice) waiting ≡ (err (external 0), sent.1))
    ↔ IsRunFailure sample true timed_alice
        (InitiateFailed sample true timed_alice)
        timed_alice.local_identity
        waiting
        sent.1
        (external 0)
run_initiator_err_iff_example =
    run_initiator_err_iff sample true timed_alice waiting sent.1 (external 0)
