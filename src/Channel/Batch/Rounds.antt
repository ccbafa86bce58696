-- ===== src/Channel/Batch/Rounds.antt =====
-- channel.go: the batch that Write is, one record at a time.
use zwing.Base.{
  ℕ, zero, suc, ◌+◌, ◌-◌, ◌%◌, ◌^◌, ◌<◌, ◌≡◌, refl, ap, ap₂, ◌∙◌, sym, Bytes, none, some, List, [],
  ◌∷◌,
}
use zwing.Base.{length, take, arith, length-append, ltb, if◌then◌else◌, Outcome, ok, err, panic}
use zwing.Base.{sequence_exhausted}
use native.Mathlib.Nat.{mod-eq_of_lt}
use zwing.Platform.{Platform}
use zwing.Aead.{nonce_for}
use zwing.Channel.{Conn, WriteReturn, max_seq, write_raw}
use zwing.Channel.Stream.{concat, concat_nil, concat_cons}
use zwing.Channel.Batch.{sealed, send_all, report, send_batch}

pub take_nil : (n : ℕ) → take {A = Bytes} n [] ≡ []
unfolding take
take_nil zero = refl
take_nil (suc n) = refl

pub take_full : (seq : ℕ) (rs : List Bytes) → seq ≡ max_seq → take (max_seq - seq) rs ≡ []
take_full seq rs full =
    let spent : max_seq - seq ≡ 0 = omega arith in ap (λ k. take k rs) spent ∙ unfold take in refl

module _ (P : Platform) where
  abbrev pub bump : Conn P → Conn P
  bump c = record c { write_seq = (c.write_seq + 1) % 2 ^ 64 }

  report-suc :
      (c : Conn P) (written : ℕ) (r : Bytes) (rs : List Bytes) (n : ℕ) (o : Outcome (Unit {0}))
      (w : P.World)
      → c.write_seq < max_seq
      → report P c written (r ∷ rs) (suc n) o w ≡ report P (bump c) (written + length r) rs n o w
  unfolding report take
  report-suc c written r rs n o w room =
      let next : (c.write_seq + 1) % 2 ^ 64 ≡ c.write_seq + 1 = mod-eq_of_lt (omega arith) in
      let sum : written + length (concat (take (suc n) (r ∷ rs)))
          ≡ written + length r + length (concat (take n rs)) =
        omega
          (arith, ap length (concat_cons r (take n rs)), length-append r (concat (take n rs))) in
      let seq : c.write_seq + suc n ≡ (c.write_seq + 1) % 2 ^ 64 + n = omega arith in
      let more : ltb (suc n) (length (r ∷ rs)) ≡ ltb n (length rs) = ground arith in
      elim o
        as (λ o.
          report P c written (r ∷ rs) (suc n) o w
          ≡ report P (bump c) (written + length r) rs n o w) [
            | ok u ↦
                ap₂
                  (λ count seq. (
                    ok (record {
                      count = count;
                      error =
                          if ltb (suc n) (length (r ∷ rs)) then some sequence_exhausted else none;
                    }),
                    record c { write_seq = seq },
                    w,
                  ))
                  sum seq
                ∙ ap
                    (λ t. (
                      ok (record {
                        count = written + length r + length (concat (take n rs));
                        error = if t then some sequence_exhausted else none;
                      }),
                      record c { write_seq = (c.write_seq + 1) % 2 ^ 64 + n },
                      w,
                    ))
                    more
            | err e ↦
                ap₂
                  (λ count seq. (
                    ok (record { count = count; error = some e }),
                    record c { write_seq = seq + 1 },
                    w,
                  ))
                  sum seq
            | panic p ↦ ap (λ seq. (panic p, record c { write_seq = seq + 1 }, w)) seq
          ]

  -- The rest of a batch after one frame, by how sending it ended.
  unfoldable pub after :
      Conn P
      → ℕ
      → Bytes
      → List Bytes
      → Outcome (Unit {0})
      → P.World
      → Outcome (WriteReturn P) × Conn P × P.World
  after c written r rs (ok u) w = send_batch P (bump c) (written + length r) rs w
  after c written r rs (err e) w = (ok (record { count = written; error = some e }), bump c, w)
  after c written r rs (panic p) w = (panic p, bump c, w)

  sealed-take :
      (a : P.Aead) (seq : ℕ) (r : Bytes) (rs : List Bytes)
      → seq < max_seq
      → sealed P a seq (take (max_seq - seq) (r ∷ rs))
        ≡ P.aead_seal a (nonce_for seq) r []
          ∷ sealed P a ((seq + 1) % 2 ^ 64) (take (max_seq - (seq + 1) % 2 ^ 64) rs)
  unfolding sealed take
  sealed-take a seq r rs room =
      let next : (seq + 1) % 2 ^ 64 ≡ seq + 1 = mod-eq_of_lt (omega arith) in
      let left : max_seq - seq ≡ suc (max_seq - (seq + 1) % 2 ^ 64) = omega arith in
      ap (λ k. sealed P a seq (take k (r ∷ rs))) left
      ∙ ap
          (λ n.
            P.aead_seal a (nonce_for seq) r []
            ∷ sealed P a n (take (max_seq - (seq + 1) % 2 ^ 64) rs))
          (sym next)

  -- A failed frame: nothing of its record counts, and its number is used.
  unsent :
      (c : Conn P) (written : ℕ) (r : Bytes) (rs : List Bytes) (o : Outcome (Unit {0}))
      (w : P.World)
      → c.write_seq < max_seq
      → (¬ (o ≡ ok tt))
      → report P c written (r ∷ rs) 0 o w ≡ after c written r rs o w
  unfolding report after take
  unsent c written r rs o w room failed =
      let wraps : (c.write_seq + 1) % 2 ^ 64 ≡ c.write_seq + 1 = mod-eq_of_lt (omega arith) in
      let next : c.write_seq + 0 + 1 ≡ (c.write_seq + 1) % 2 ^ 64 = omega arith in
      let none_sent : written + length (concat []) ≡ written =
        omega (arith, ap length concat_nil) in
      elim o
          as (λ o. (¬ (o ≡ ok tt)) → report P c written (r ∷ rs) 0 o w ≡ after c written r rs o w) [
            | ok u ↦ λ failed. absurd (failed refl)
            | err e ↦ λ failed.
                ap₂
                  (λ count seq. (
                    ok (record { count = count; error = some e }),
                    record c { write_seq = seq },
                    w,
                  ))
                  none_sent next
            | panic p ↦ λ failed. ap (λ seq. (panic p, record c { write_seq = seq }, w)) next
          ]
        failed

  pub send_batch-cons :
      (c : Conn P) (written : ℕ) (r : Bytes) (rs : List Bytes) (w : P.World)
      → c.write_seq < max_seq
      → let sent = write_raw P c.raw (P.aead_seal c.write_aead (nonce_for c.write_seq) r []) w in
        send_batch P c written (r ∷ rs) w ≡ after c written r rs (sent.0) (sent.1)
  unfolding send_batch send_all after
  send_batch-cons c written r rs w room =
      let sent = write_raw P c.raw (P.aead_seal c.write_aead (nonce_for c.write_seq) r []) w in
      let fs =
        sealed P c.write_aead ((c.write_seq + 1) % 2 ^ 64)
          (take (max_seq - (c.write_seq + 1) % 2 ^ 64) rs) in
      ap (λ fs. let (n, o, w') = send_all P c.raw fs w in report P c written (r ∷ rs) n o w')
        (sealed-take c.write_aead c.write_seq r rs room)
      ∙ elim (sent.0)
          as (λ o.
            ◌≡◌ {A = Outcome (WriteReturn P) × Conn P × P.World}
              (let (n, o', w') = (elim o as (λ k. ℕ × Outcome (Unit {0}) × P.World) [
                | ok u ↦ let (n, o', w') = send_all P c.raw fs (sent.1) in (suc n, o', w')
                | err e ↦ (0, err e, sent.1)
                | panic p ↦ (0, panic p, sent.1)
              ]) in
                report P c written (r ∷ rs) n o' w')
              (after c written r rs o (sent.1))) [
                | ok u ↦
                    let s = send_all P c.raw fs (sent.1) in
                    report-suc c written r rs (s.0) (s.1) (s.2) room
                | err e ↦ unsent c written r rs (err e) (sent.1) room (λ h. cc)
                | panic p ↦ unsent c written r rs (panic p) (sent.1) room (λ h. cc)
              ]

  -- A batch of which nothing is sent.
  pub send_batch_stopped :
      (c : Conn P) (written : ℕ) (records : List Bytes) (w : P.World)
      → take (max_seq - c.write_seq) records ≡ []
      → send_batch P c written records w ≡ (
        ok (record {
          count = written;
          error = if ltb 0 (length records) then some sequence_exhausted else none;
        }),
        c,
        w,
      )
  unfolding send_batch
  send_batch_stopped c written records w nothing =
      let count : written + length (concat []) ≡ written = omega (arith, ap length concat_nil) in
      let seq : c.write_seq + 0 ≡ c.write_seq = omega arith in
      ap
        (λ room.
          let (n, o, w') = send_all P c.raw (sealed P c.write_aead c.write_seq room) w in
          report P c written records n o w')
        nothing
      ∙ unfold sealed send_all report take in
        ap₂
          (λ count seq. (
            ok (record {
              count = count;
              error = if ltb 0 (length records) then some sequence_exhausted else none;
            }),
            record c { write_seq = seq },
            w,
          ))
          count seq
