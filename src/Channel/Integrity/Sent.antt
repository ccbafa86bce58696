-- ===== src/Channel/Integrity/Sent.antt =====
-- What each Write of a run (channel.go) puts on the connection: its records, sealed under the
-- numbers that they have in the log.
use zwing.Base.{◌≡◌, sym, ap, ◌∙◌, Bytes, length, arith}
use zwing.Platform.{Platform}
use zwing.Channel.{Conn, write}
use zwing.Channel.Counters.{IsCounted, Calls-Advances}
use zwing.Channel.Batch.{sealed, send_all}
use zwing.Channel.Batch.Tried.{write-sealed}
use zwing.Channel.Integrity.{Reads, here, reads, writes}
use zwing.Channel.Integrity.Records.{sealed_by, records_of, Reads-Calls, length-records_of}

module _ (P : Platform) where
  -- Each Write of a run left the world in which its records of the log, sealed with the key under
  -- their numbers there, were put on its connection one after the other until one failed.
  unfoldable pub AreSent : (key : P.Aead) {c d : Conn P} {out : Bytes} → Reads P c out d → Type 0
  AreSent key here = Unit
  AreSent key (reads before b w) = AreSent key before
  AreSent key (writes {out} {d} before b w) =
      AreSent key before
      × ((send_all P d.raw (sealed P key (length (records_of P before)) (sealed_by P d b w)) w).2
          ≡ (write P d b w).2)

  pub Reads-AreSent :
      {c d : Conn P} {out : Bytes} (calls : Reads P c out d)
      → IsCounted P c
      → c.write_seq ≡ 0
      → AreSent c.write_aead calls
  unfolding AreSent
  Reads-AreSent here k start = tt
  Reads-AreSent (reads before b w) k start = Reads-AreSent before k start
  Reads-AreSent {c} (writes {out} {d} before b w) k start =
      let so_far = Calls-Advances P (Reads-Calls P before) k in
      let number : length (records_of P before) ≡ d.write_seq =
        omega (arith, length-records_of P before k) in
      (
        Reads-AreSent before k start,
        ap (λ n. (send_all P d.raw (sealed P c.write_aead n (sealed_by P d b w)) w).2) number
            ∙ ap (λ key. (send_all P d.raw (sealed P key d.write_seq (sealed_by P d b w)) w).2)
                (sym so_far.write_aead)
            ∙ write-sealed P d b w so_far.counted.writing,
      )
