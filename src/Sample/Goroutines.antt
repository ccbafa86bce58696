-- ===== src/Sample/Goroutines.antt =====
-- Three goroutines on one connection (channel.go): two in Write and one in Read, step by step.
use zwing.Base.{
  ℕ, ◌+◌, ◌≡◌, refl, some, [], Bytes, zeros, arith, take, drop, copy_into, replicate, ◌>>=◌, ok,
  subst,
}
use zwing.Wire.{write_frame}
use zwing.Aead.{nonce_for}
use zwing.Channel.{write_raw, max_plain}
use zwing.Channel.Integrity.{get_elem?}
use zwing.Channel.Concurrent.{WriteMove, after_send, round_done, Seal, seal_of}
use zwing.Channel.Concurrent.Schedule.{Goroutines, Step, reader, writer, unused, Reach, later}
use zwing.Channel.Concurrent
use zwing.Channel.Concurrent.Schedule
use zwing.Channel.Concurrent.Safety.{Linearized, Reach-Linearized, Reach-seals}
use zwing.Channel.Concurrent.Finishing.Unlocked.{Unlocked}
use zwing.Sample.Primitives.{seal, padded}
use zwing.Sample.Machine.{sample, send, start}
use zwing.Sample.Channels.{near, three}
use native.Mathlib.Decide.{ℕ_discrete}

-- Goroutine 0 locks, tests and seals.
has_sealed : (s : Goroutines sample) × Reach sample near s
unfolding ℕ_discrete
has_sealed = (
  _,
  later
      (later (later Schedule.Reach.start (writer 0 (Concurrent.WriteMove.lock three refl)))
        (writer 0 (Concurrent.WriteMove.test (omega arith) (omega arith))))
      (writer 0 Concurrent.WriteMove.seal),
)

-- Meanwhile goroutine 5 begins to read, and gets what the connection below has.
has_asked : (s : Goroutines sample) × Reach sample near s
unfolding ℕ_discrete has_sealed
has_asked = (
  _,
  later
      (later (later has_sealed.1 (reader 5 (Concurrent.ReadMove.lock (zeros 2) refl)))
        (reader 5 (Concurrent.ReadMove.empty refl)))
      (reader 5 (Concurrent.ReadMove.heard start)),
)

-- Goroutine 0 counts the record.
has_counted : (s : Goroutines sample) × Reach sample near s
unfolding ℕ_discrete has_asked has_sealed
has_counted = (
  _,
  later (later has_asked.1 (writer 0 Concurrent.WriteMove.load))
      (writer 0 Concurrent.WriteMove.store),
)

abbrev cipher : Bytes
cipher = seal (zeros 32) (nonce_for 0) (take max_plain three) []

sent_ok : (write_raw sample near.raw cipher start).0 ≡ ok tt
unfolding write_frame seal padded copy_into zeros replicate ◌>>=◌ send take drop
sent_ok = refl

nothing_left : drop max_plain three ≡ []
unfolding drop
nothing_left = refl

-- The record is sent.
sends :
    WriteMove sample has_counted.0.mem
      (Concurrent.WriteAt.sending 0 three cipher)
      (round_done sample has_counted.0.mem (take max_plain three) (ok tt))
      (after_send sample 0 three (ok tt))
unfolding ℕ_discrete has_counted has_asked has_sealed
sends =
    subst
      (λ o.
        WriteMove sample has_counted.0.mem (Concurrent.WriteAt.sending 0 three cipher)
          (round_done sample has_counted.0.mem (take max_plain three) o)
          (after_send sample 0 three o))
      sent_ok (Concurrent.WriteMove.send start)

-- Goroutine 0 returns, and goroutine 1 locks, tests and seals.
has_two : (s : Goroutines sample) × Reach sample near s
unfolding ℕ_discrete has_counted has_asked has_sealed
has_two = (
  _,
  later
      (later
        (later
          (later
            (later (later has_counted.1 (writer 0 sends))
              (writer 0 (Concurrent.WriteMove.finish nothing_left)))
            (writer 0 Concurrent.WriteMove.unlock))
          (writer 1 (Concurrent.WriteMove.lock three refl)))
        (writer 1 (Concurrent.WriteMove.test (omega arith) (omega arith))))
      (writer 1 Concurrent.WriteMove.seal),
)

Reach-Linearized_example : Linearized sample near has_two.0
Reach-Linearized_example = Reach-Linearized sample near has_two.0 has_two.1 (omega arith)

first_seal : get_elem? has_two.0.mem.seals 0 ≡ some (seal_of sample 0 three)
unfolding get_elem? has_two has_counted has_asked has_sealed
first_seal = refl

second_seal : get_elem? has_two.0.mem.seals 1 ≡ some (seal_of sample 1 three)
unfolding get_elem? has_two has_counted has_asked has_sealed
second_seal = refl

Reach-seals_example :
    (nonce_for 0 ≡ nonce_for (0 + 0)) × (nonce_for 0 ≡ nonce_for 1 → ◌≡◌ {A = ℕ} 0 1)
Reach-seals_example =
    Reach-seals sample near has_two.0 has_two.1 (omega arith) 0 1 (seal_of sample 0 three)
      (seal_of sample 1 three) first_seal second_seal
