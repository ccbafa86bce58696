-- ===== src/Sample/Streams.antt =====
-- The theorems on the exchange of both ends, and on one end against any network.
use zwing.Base.{
  Bool, Outcome, ℕ, ◌≡◌, refl, sym, ap, ◌∙◌, arith, true, false, none, some, Option, [], ◌∷◌, ◌++◌,
  Bytes, length, take, zeros, length-zeros, length-append, bytes_eq, bytes_eq→eq, if◌then◌else◌,
}
use zwing.Base.{external, message_too_large, ok, drop, ◌>>=◌}
use zwing.Wire.{read_frame, read_payload}
use zwing.Base.{get_be}
use zwing.Channel.{write, write_loop, max_plain}
use zwing.Channel.Batch.Splitting.{go_on, write-go_on}
use zwing.Channel.Stream.{chunks}
use zwing.Channel.Batch.{write_batch}
use zwing.Channel.Batch.Writing.{write-write_batch}
use zwing.Sample.Machine.{receive}
use zwing.Platform.{Platform}
use zwing.Wire.Frames.{frame}
use zwing.Aead.{nonce_for}
use zwing.Aead.Nonces.{nonce_for_inj}
use zwing.Channel.{Conn, ReadReturn, read, max_seq}
use zwing.Channel.Contract.{IsReader, read-IsReader}
use zwing.Channel.Exchange.{Exchange, handed, write_a, Reach, here, next, a_writes}
use zwing.Channel.Exchange.Delivery.{IsFresh, Delivered, Reach-Delivered}
use zwing.Channel.Integrity.{AreUnforged, IsUnforged, get_elem?, Reads, reads, Reads-front}
use zwing.Channel.Integrity
use zwing.Channel.Stream.{InStep, idle-InStep, unread, concat, seals_nil}
use zwing.Channel.Stream.Filling.{Filled, write-Filled}
use zwing.Channel.Stream.Reading.{HandedOut, read-HandedOut}
use zwing.Sample.Machine.{State, start, sample}
use zwing.Sample.Primitives.{seal}
use zwing.Sample.Lawful.{sample_laws, sample_duplex, start_empty}
use zwing.Sample.Channels.{near, far, three, written}

-- Two ends that have not written or read yet.
abbrev pub fresh : Exchange sample
fresh = record {
  a = near;
  b = far;
  world = start;
  sent_a = [];
  got_b = [];
  sent_b = [];
  got_a = [];
}

pub fresh-IsFresh : IsFresh sample sample_duplex fresh
fresh-IsFresh = record {
  forward =
      idle-InStep sample true false sample_duplex.forward near far start (refl, refl) refl
        (refl, refl) start_empty.0;
  backward =
      idle-InStep sample false true sample_duplex.backward far near start (refl, refl) refl
        (refl, refl) start_empty.1;
  kept = (refl, refl);
  nothing_sent = (refl, refl);
  nothing_got = (refl, refl);
}

abbrev pub after_write : Exchange sample
after_write = write_a sample fresh three

pub wrote_three : Reach sample sample_duplex fresh after_write
wrote_three = next here (a_writes three)

delivered : Delivered sample sample_laws.aead sample_duplex after_write
delivered =
    Reach-Delivered sample sample_laws.aead sample_duplex fresh after_write (zeros 2) fresh-IsFresh
      wrote_three (omega (arith, length-zeros 2))

-- Both ends at the last sequence number.
abbrev near_last : Conn sample
near_last = record near { write_seq = max_seq }

abbrev far_last : Conn sample
far_last = record far { read_seq = max_seq }

last_step : InStep sample true false sample_duplex.forward near_last far_last start []
last_step = record {
  raw_s = refl;
  raw_r = refl;
  same_key = refl;
  counted = omega arith;
  below = omega arith;
  wire = start_empty.0 ∙ sym (seals_nil sample (zeros 32) max_seq);
  sized = tt;
}

write-Filled_example :
    Filled sample sample_laws.aead true false sample_duplex.forward far_last near_last three start
      []
write-Filled_example =
    write-Filled sample sample_laws.aead true false sample_duplex.forward far_last near_last three
      start [] last_step

-- One end alone.
handed_out :
    HandedOut sample true false sample_duplex.forward written.0 far (zeros 2) written.1 written.2
handed_out =
    read-HandedOut sample sample_laws.aead true false sample_duplex.forward written.0 far (zeros 2)
      written.1 written.2 written.4
      (omega (arith, ap length written.5, length-append (unread sample far []) three))

read-IsReader_example :
    IsReader sample far (zeros 2) handed_out.ret (read sample far (zeros 2) written.1).1
read-IsReader_example =
    read-IsReader sample far (zeros 2) written.1 handed_out.ret (ap (λ o. o.0) handed_out.ran)

write-write_batch_example :
    (write sample near three start ≡ write_batch sample near three start)
    × (concat (chunks (length three) three) ≡ three)
    × (write_loop sample 5 near 0 three start ≡ write sample near three start)
write-write_batch_example = write-write_batch sample near three start 5 (omega arith) (omega arith)

write-go_on_example :
    write sample near three start
    ≡ go_on sample (write sample near (take max_plain three) start) (drop max_plain three)
write-go_on_example = write-go_on sample near three start (omega arith)

-- A length of five, and nothing more yet: the deadline passes.
abbrev half_frame : State
half_frame = record start { to_false = 0 ∷ 0 ∷ 0 ∷ 5 ∷ [] }

-- Then the payload, from whose first bytes the next call takes a length.
abbrev other_half : State
other_half = record start { to_false = 9 ∷ 9 ∷ 9 ∷ 9 ∷ 9 ∷ [] }

interrupted :
    (read sample far (zeros 2) half_frame
      ≡ (ok (record { buffer = zeros 2; count = 0; error = some (external 0) }), far, start))
    × ((read sample far (zeros 2) other_half).0
        ≡ ok (record { buffer = zeros 2; count = 0; error = some message_too_large }))
unfolding read read_frame receive ◌>>=◌ take drop read_payload get_be
interrupted = (refl, refl)

-- A platform on which one record opens, and only as the first.
abbrev only_first : Bytes → Bytes → Bytes → Bytes → Option Bytes
only_first key nonce sealed aad =
    if bytes_eq nonce (nonce_for 0)
    then (if bytes_eq sealed (seal key nonce three []) then some three else none)
    else none

abbrev strict : Platform
strict = record sample { aead_open = only_first }

-- What opens is that record, and it opens as the first.
opens_first :
    (n : ℕ) (text : Bytes) (same opens : Bool)
    → (same ≡ true → n ≡ 0)
    → (if same then (if opens then some three else none) else none) ≡ some text
    → get_elem? (three ∷ []) n ≡ some text
unfolding get_elem?
opens_first n text true true first e = rw (first refl) e
opens_first n text true false first e = cc
opens_first n text false opens first e = cc

unforged : (c : Conn strict) (w : State) → IsUnforged strict (three ∷ []) c w
unforged c w frame text empty e below opens =
    opens_first c.read_seq text _ _
      (λ same. nonce_for_inj c.read_seq 0 (omega arith) (omega arith) (bytes_eq→eq _ _ same)) opens

-- An end of a connection that anyone may write to.
abbrev attacked : Conn strict
attacked = record {
  raw = some true;
  remote = record { ed_pub = []; dsa_pub = 1; xwing_pub = record { mlkem = 1; x25519 = [] } };
  read_aead = zeros 32;
  read_seq = 0;
  read_buf = [];
  write_aead = zeros 32;
  write_seq = 0;
}

-- The record of another number, and then the one that opens.
abbrev forged_world : State
forged_world = record start {
  to_true =
      frame (seal (zeros 32) (nonce_for 1) three [])
      ++ frame (seal (zeros 32) (nonce_for 0) three []);
}

abbrev first_read : Outcome (ReadReturn strict) × Conn strict × State
first_read = read strict attacked (zeros 2) forged_world

abbrev second_read : Outcome (ReadReturn strict) × Conn strict × State
second_read = read strict first_read.1 (zeros 2) first_read.2

both :
    Reads strict attacked (handed strict first_read.0 ++ handed strict second_read.0) second_read.1
both = reads (reads Integrity.here (zeros 2) forged_world) (zeros 2) first_read.2

both-AreUnforged : AreUnforged strict (three ∷ []) both
unfolding AreUnforged both
both-AreUnforged = ((tt, unforged attacked forged_world), unforged first_read.1 first_read.2)

-- Both reads: what they handed out is what the first record begins with.
attacked_front :
    (handed strict first_read.0 ++ handed strict second_read.0) ++ second_read.1.read_buf
    ≡ concat (take second_read.1.read_seq (three ∷ []))
attacked_front =
    Reads-front strict (three ∷ []) attacked second_read.1
      (handed strict first_read.0 ++ handed strict second_read.0) both both-AreUnforged refl refl
