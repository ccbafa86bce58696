-- ===== src/Channel/Batch.antt =====
-- channel.go: Write as one batch. The records are cut and sealed first, then the frames are put on
-- the connection until one of them fails.
pub mod Rounds
pub mod Writing
pub mod Tried
pub mod Splitting
use zwing.Base.{
  ℕ, zero, suc, ◌+◌, ◌-◌, ◌%◌, ◌^◌, ◌<◌, ◌≤◌, ◌≡◌, refl, ap, ap₂, ◌∙◌, sym, Bytes, Bool, true,
  false, Option, none, some, List, [], ◌∷◌, ◌++◌,
}
use zwing.Base.{
  Error, length, take, drop, arith, length-append, ltb, ◌==◌, if◌then◌else◌, Outcome, ok, err,
  panic,
}
use zwing.Base.{lt→ltb, Bool-cases, inl, inr, ==→eq, ==→ne, eq→==, ne→==, sequence_exhausted}
use native.Mathlib.Nat.{mod-eq_of_lt}
use zwing.Platform.{Platform}
use zwing.Aead.{nonce_for}
use zwing.Channel.{Conn, WriteReturn, max_seq, max_plain, write, write_loop, write_raw}
use zwing.Channel.Stream.{concat, concat_nil, concat_cons, chunks}

module _ (P : Platform) where
  -- The ciphertexts of some records, numbered from `seq` on.
  pub sealed : P.Aead → ℕ → List Bytes → List Bytes
  sealed a seq [] = []
  sealed a seq (t ∷ ts) = P.aead_seal a (nonce_for seq) t [] ∷ sealed a (seq + 1) ts

  -- How many frames were put on the connection, and how it ended.
  pub send_all : Option P.RawConn → List Bytes → P.World → ℕ × Outcome (Unit {0}) × P.World
  send_all raw [] w = (0, ok tt, w)
  send_all raw (f ∷ fs) w =
      let sent = write_raw P raw f w in
      elim (sent.0) [
        | ok u ↦ let (n, o, w') = send_all raw fs (sent.1) in (suc n, o, w')
        | err e ↦ (0, err e, sent.1)
        | panic p ↦ (0, panic p, sent.1)
      ]

  -- What Write returns when `n` of its records were sent: a frame that failed has used its number.
  pub report :
      Conn P
      → ℕ
      → List Bytes
      → ℕ
      → Outcome (Unit {0})
      → P.World
      → Outcome (WriteReturn P) × Conn P × P.World
  report c written records n (ok u) w = (
    ok (record {
      count = written + length (concat (take n records));
      error = if ltb n (length records) then some sequence_exhausted else none;
    }),
    record c { write_seq = c.write_seq + n },
    w,
  )
  report c written records n (err e) w = (
    ok (record { count = written + length (concat (take n records)); error = some e }),
    record c { write_seq = c.write_seq + n + 1 },
    w,
  )
  report c written records n (panic p) w =
      (panic p, record c { write_seq = c.write_seq + n + 1 }, w)

  -- As many records as there are numbers left are sent.
  pub send_batch : Conn P → ℕ → List Bytes → P.World → Outcome (WriteReturn P) × Conn P × P.World
  send_batch c written records w =
      let room = take (max_seq - c.write_seq) records in
      let (n, o, w') = send_all c.raw (sealed c.write_aead c.write_seq room) w in
      report c written records n o w'

  abbrev pub write_batch : Conn P → Bytes → P.World → Outcome (WriteReturn P) × Conn P × P.World
  write_batch c b w = send_batch c 0 (chunks (length b) b) w
