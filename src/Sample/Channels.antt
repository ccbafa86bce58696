-- ===== src/Sample/Channels.antt =====
-- The theorems on the channel, at two ends with a key of zeros.
use zwing.Base.{
  ◌≡◌, ◌≢◌, refl, ap, arith, true, false, none, some, [], ◌∷◌, ◌++◌, Bytes, List, ok, length,
  length-append, drop, zeros, length-zeros,
}
use zwing.Identity.{public_of}
use zwing.Aead.{nonce_for}
use zwing.Handshake.{HandshakeResult}
use zwing.Channel.{Conn, new_conn, read, write}
use zwing.Channel.Keys.{AreCrossed, AreErased, new_conn-AreCrossed}
use zwing.Channel.Stream.{InStep, unread, idle-InStep, chunks}
use zwing.Channel.Stream.Writing.{write-InStep}
use zwing.Channel.Stream.Reading.{HandedOut, read-HandedOut}
use zwing.Channel.Counters.{
  IsCounted, Advances, Calls, here, next, reads, writes, Calls-Advances, Calls-nonce_for_fresh,
}
use zwing.Sample.Machine.{State, start, sample}
use zwing.Sample.Lawful.{sample_laws, sample_duplex, start_empty}
use zwing.Sample.Handshakes.{alice, bob}

abbrev result : HandshakeResult sample
result = record {
  shared = zeros 32;
  key_i2r = zeros 32;
  key_r2i = zeros 32;
  remote = public_of sample bob;
}

new_conn-AreCrossed_example :
    (a : Conn sample) × (after_a : HandshakeResult sample) × (b : Conn sample)
    × (after_b : HandshakeResult sample) × (new_conn sample true result true ≡ ok (a, after_a))
    × (new_conn sample false result false ≡ ok (b, after_b))
    × AreCrossed sample a b
    × AreErased sample result after_a
    × AreErased sample result after_b
new_conn-AreCrossed_example =
    new_conn-AreCrossed sample true false result result (length-zeros 32) (length-zeros 32) refl
      refl

abbrev pub near : Conn sample
near = record {
  raw = some true;
  remote = public_of sample bob;
  read_aead = zeros 32;
  read_seq = 0;
  read_buf = [];
  write_aead = zeros 32;
  write_seq = 0;
}

abbrev pub far : Conn sample
far = record near { raw = some false; remote = public_of sample alice }

idle : InStep sample true false sample_duplex.forward near far start []
idle =
    idle-InStep sample true false sample_duplex.forward near far start (refl, refl) refl
      (refl, refl) start_empty.0

abbrev pub three : Bytes
three = 1 ∷ 2 ∷ 3 ∷ []

-- What writing three bytes leads to.
abbrev pub Written : Type 0
Written =
    (s' : Conn sample) × (w' : State) × (records' : List Bytes) × (write sample near three start
      ≡ (ok (record { count = 3; error = none }), s', w'))
    × InStep sample true false sample_duplex.forward s' far w' records'
    × (unread sample far records' ≡ unread sample far [] ++ three)

few : length (chunks 3 three) ≡ 1
unfolding chunks drop
few = refl

pub written : Written
written =
    write-InStep sample sample_laws.aead true false sample_duplex.forward far near three start []
      idle (omega (arith, few))

read-HandedOut_example :
    HandedOut sample true false sample_duplex.forward written.0 far (zeros 2) written.1 written.2
read-HandedOut_example =
    read-HandedOut sample sample_laws.aead true false sample_duplex.forward written.0 far (zeros 2)
      written.1 written.2 written.4
      (omega (arith, ap length written.5, length-append (unread sample far []) three))

abbrev used_before : Conn sample
used_before = record near { write_seq = 5 }

used_before-IsCounted : IsCounted sample used_before
used_before-IsCounted = record { reading = omega arith; writing = omega arith }

abbrev after_write : Conn sample
after_write = (write sample used_before three start).1

abbrev after_both : Conn sample
after_both = (read sample after_write (zeros 2) start).1

calls : Calls sample used_before after_both
calls = next (next here (writes used_before three start)) (reads after_write (zeros 2) start)

Calls-Advances_example : Advances sample used_before after_both
Calls-Advances_example = Calls-Advances sample calls used_before-IsCounted

later_nonce : nonce_for 4 ≢ nonce_for after_both.write_seq
later_nonce = Calls-nonce_for_fresh sample calls used_before-IsCounted 4 (omega arith)
