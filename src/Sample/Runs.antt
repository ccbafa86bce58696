-- ===== src/Sample/Runs.antt =====
-- The theorems on whole runs and on the entry points, at two sample identities that pin each other.
use zwing.Base.{[], ◌∷◌, ◌≡◌, refl, true, false, some, ok, bytes_eq_refl}
use zwing.Base.{inl}
use zwing.Config.{Config}
use zwing.Kem.{marshal_xwing}
use zwing.Identity.{IdentityPublic, public_of, identity_equal, marshal_identity}
use zwing.Wire.Frames.{frame}
use zwing.Handshake.{check_pin, run_initiator}
use zwing.Handshake.Agreement.{Agreed, handshake-Agreed}
use zwing.Handshake.Agreement.Resumed.{run_initiator_ok}
use zwing.Handshake.Runs.{run_pinned, recover_keys}
use zwing.Handshake.Responding.{Responded, run_responder-Responded}
use zwing.Handshake.Runs.{recover_keys-accept_response}
use zwing.Endpoint.Opening.{Opened, handshake-Opened}
use zwing.Channel.Exchange.{Exchange, write_a, write_b, here, next, a_writes, b_writes}
use zwing.Channel.Exchange.Delivery.{IsInOrder}
use zwing.Endpoint.Session.{opened_exchange, Opened-IsInOrder}
use zwing.Sample.Machine.{State, start, sample}
use zwing.Sample.Lawful.{sample_laws, sample_duplex, start_empty, pending-to_true}
use zwing.Sample.Handshakes.{alice, bob, alice-IsSound, bob-IsSound}

abbrev pub bob_pin : IdentityPublic sample
bob_pin = public_of sample bob

abbrev pub alice_pin : IdentityPublic sample
alice_pin = public_of sample alice

abbrev pub for_bob : Config sample
for_bob = record {
  local_identity = some alice;
  expected_remote = some bob_pin;
  handshake_timeout = 0;
}

abbrev pub for_alice : Config sample
for_alice = record {
  local_identity = some bob;
  expected_remote = some alice_pin;
  handshake_timeout = 0;
}

pub check_pin_refl : (p : IdentityPublic sample) → check_pin sample (some p) p ≡ ok tt
unfolding identity_equal
check_pin_refl p = rw (
  bytes_eq_refl p.ed_pub,
  bytes_eq_refl (sample.mldsa_public_bytes p.dsa_pub),
  bytes_eq_refl (marshal_xwing sample p.xwing_pub),
)

handshake-Opened_example : Opened sample true false sample_duplex for_bob for_alice alice bob start
handshake-Opened_example =
    handshake-Opened sample sample_laws true false sample_duplex for_bob for_alice alice bob start
      alice-IsSound bob-IsSound refl (check_pin_refl bob_pin) (check_pin_refl alice_pin)
      start_empty.0 start_empty.1

-- The run that the others are about.
abbrev pub agreed : Agreed sample true false sample_duplex for_bob for_alice alice bob start
agreed =
    handshake-Agreed sample sample_laws true false sample_duplex for_bob for_alice alice bob start
      alice-IsSound bob-IsSound refl (check_pin_refl bob_pin) (check_pin_refl alice_pin)
      start_empty.0 start_empty.1

responded : Responded sample false for_alice agreed.w1 agreed.w2 agreed.res_b
responded =
    run_responder-Responded sample false for_alice agreed.w1 agreed.w2 agreed.res_b agreed.responded

-- The response is on its way to the initiator before it begins.
abbrev pub ready : State
ready = record start { to_true = frame agreed.response }

pub resumed :
    (w' : State) × (run_initiator sample true (some for_bob) ready ≡ (ok agreed.res_a, w'))
resumed =
    run_initiator_ok sample sample_laws.kem sample_laws.signatures sample_laws.supplied true false
      sample_duplex for_bob alice agreed.response agreed.res_a ready alice-IsSound refl
      agreed.is_payload agreed.accepted (pending-to_true (frame agreed.response))

run_pinned_example : marshal_identity sample agreed.res_a.remote ≡ marshal_identity sample bob_pin
run_pinned_example =
    run_pinned sample true for_bob bob_pin ready resumed.0 agreed.res_a refl (inl resumed.1)

recover_keys-accept_response_example :
    recover_keys sample alice.xwing agreed.response
    ≡ ok (agreed.res_a.key_i2r, agreed.res_a.key_r2i)
recover_keys-accept_response_example =
    recover_keys-accept_response sample for_bob alice (marshal_identity sample alice_pin)
      agreed.response agreed.res_a agreed.accepted

-- The channel that the run opened, after the initiator wrote and the responder wrote back.
abbrev opened : Opened sample true false sample_duplex for_bob for_alice alice bob start
opened =
    handshake-Opened sample sample_laws true false sample_duplex for_bob for_alice alice bob start
      alice-IsSound bob-IsSound refl (check_pin_refl bob_pin) (check_pin_refl alice_pin)
      start_empty.0 start_empty.1

abbrev opened_ends : Exchange sample
opened_ends =
    opened_exchange sample true false sample_duplex for_bob for_alice alice bob start opened

abbrev greeted : Exchange sample
greeted = write_b sample (write_a sample opened_ends (1 ∷ 2 ∷ [])) (3 ∷ [])

Opened-IsInOrder_example : IsInOrder sample greeted
Opened-IsInOrder_example =
    Opened-IsInOrder sample true false sample_duplex for_bob for_alice alice bob start
      sample_laws.aead opened greeted (next (next here (a_writes (1 ∷ 2 ∷ []))) (b_writes (3 ∷ [])))
