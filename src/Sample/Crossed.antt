-- ===== src/Sample/Crossed.antt =====
-- Two ends with crossed keys (channel.go): one Write at one end and one Read at the other.
use zwing.Base.{copy_into, replicate, ◌>>=◌}
use zwing.Wire.{write_frame}
use zwing.Base.{
  ◌≡◌, refl, true, false, some, [], ok, ap, sym, ◌∙◌, Bytes, Outcome, ◌++◌, take, zeros, append-nil,
  ok_inj, arith, drop,
}
use zwing.Wire.Frames.{IsPayload, frame, read_frame_lem}
use zwing.Aead.{nonce_for}
use zwing.Channel.{Conn, ReadReturn, read, read_raw, write, write_loop}
use zwing.Channel.Exchange.{handed}
use zwing.Channel.Keys.{AreCrossed}
use zwing.Channel.Stream.{concat, chunks}
use zwing.Channel.Integrity.{Reads, here, reads, writes, get_elem?}
use zwing.Channel.Integrity.Records.{records_of}
use zwing.Channel.Integrity.Sent.{AreSent}
use zwing.Channel.Integrity.Sealed.{IsIntact, AreIntact, crossed-Reads}
use zwing.Sample.Primitives.{seal, length-seal, padded}
use zwing.Sample.Machine.{State, machine, start, sample, send}
use zwing.Sample.Lawful.{sample_laws, sample_duplex, pending-to_false}
use zwing.Sample.Channels.{near, far, three}

abbrev after_write : Conn sample
after_write = (write sample near three start).1

at_near : Reads sample near [] after_write
at_near = writes here three start

logged : get_elem? (records_of sample at_near) 0 ≡ some three
unfolding get_elem? records_of write write_loop chunks drop at_near take write_frame seal padded
    copy_into zeros replicate ◌>>=◌ send
logged = refl

-- The record of that Write, on its way to the other end.
abbrev record_of_three : Bytes
record_of_three = seal (zeros 32) (nonce_for 0) three []

abbrev sent_one : State
sent_one = record start { to_false = frame record_of_three }

record_of_three-IsPayload : IsPayload record_of_three
record_of_three-IsPayload =
    let size = length-seal (zeros 32) (nonce_for 0) three [] in (omega arith, omega arith)

arrives : (w' : State) × (read_raw sample far.raw sent_one ≡ (ok record_of_three, w'))
arrives =
    let (w', e, p) =
      read_frame_lem machine true false sample_duplex.forward record_of_three [] sent_one
        record_of_three-IsPayload
        (pending-to_false sent_one ∙ sym (append-nil (frame record_of_three))) in
    (w', e)

genuine : IsIntact sample (records_of sample at_near) (zeros 32) far sent_one
genuine taken text e opens = record {
  number = 0;
  text = three;
  logged = logged;
  numbered = refl;
  made = sym (ok_inj (ap (λ p. p.0) (sym arrives.1) ∙ e));
}

abbrev one_read : Outcome (ReadReturn sample) × Conn sample × State
one_read = read sample far (zeros 2) sent_one

at_far : Reads sample far ([] ++ handed sample one_read.0) one_read.1
at_far = reads here (zeros 2) sent_one

crossed : AreCrossed sample near far
crossed = record { a_to_b = refl; b_to_a = refl; start_ab = (refl, refl); start_ba = (refl, refl) }

crossed-Reads_example :
    (([] ++ handed sample one_read.0) ++ one_read.1.read_buf
      ≡ concat (take one_read.1.read_seq (records_of sample at_near)))
    × ([] ++ after_write.read_buf ≡ concat (take after_write.read_seq (records_of sample at_far)))
    × AreSent sample near.write_aead at_near
    × AreSent sample far.write_aead at_far
unfolding AreIntact at_far at_near
crossed-Reads_example =
    crossed-Reads sample sample_laws.aead near far after_write one_read.1 []
      ([] ++ handed sample one_read.0) at_near at_far crossed (refl, refl) (tt, genuine) tt
