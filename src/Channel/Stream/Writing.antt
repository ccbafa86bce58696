-- ===== src/Channel/Stream/Writing.antt =====
-- Write (channel.go) on the stream of bytes that is on its way.
use zwing.Base.{
  ℕ, zero, suc, ◌+◌, ◌%◌, ◌^◌, ◌<◌, ◌≤◌, ◌≡◌, ap, ap₂, ◌∙◌, sym, Bytes, All-append, none, List, [],
  ◌∷◌, ◌++◌,
}
use zwing.Base.{
  length, length-append, take, drop, subst, arith, append_assoc, append-nil, length-drop,
  length-take, ok, Outcome, ne→==,
}
use native.Mathlib.Nat.{mod-eq_of_lt}
use zwing.Host.Link.{Link}
use zwing.Platform.{Platform}
use zwing.Platform.Laws.{AeadLaws}
use zwing.Wire.Frames.{frame, write_frame_lem}
use zwing.Aead.{nonce_for}
use zwing.Channel.{Conn, write_raw, write_loop, write, max_seq, max_plain}
use zwing.Channel.Stream.{
  concat, concat-append, concat-chunks, chunks, IsRecord, seals, seals-append, InStep, unread,
}

module _ (P : Platform) (aead : AeadLaws P) (near far : P.RawConn) (link : Link P.host near far)
    (r : Conn P) where
  -- The sender after one record.
  abbrev pub bump : Conn P → Conn P
  bump s = record s { write_seq = (s.write_seq + 1) % 2 ^ 64 }

  -- One round of the loop, on a record that fits.
  pub data Sent (s : Conn P) (w : P.World) (records : List Bytes) (t : Bytes) : Type 0 where
    sent :
        (w' : P.World)
        → write_raw P s.raw (P.aead_seal s.write_aead (nonce_for s.write_seq) t []) w ≡ (ok tt, w')
        → InStep P near far link (bump s) r w' (records ++ (t ∷ []))
        → Sent s w records t

  pub send_record :
      (s : Conn P) (w : P.World) (records : List Bytes) (t : Bytes)
      → InStep P near far link s r w records
      → IsRecord t
      → s.write_seq < max_seq
      → Sent s w records t
  send_record s w records t step (pos, le) room =
      let cipher = P.aead_seal s.write_aead (nonce_for s.write_seq) t [] in
      let hlen = aead.seal_length s.write_aead (nonce_for s.write_seq) t [] in
      let (w', e, p) = write_frame_lem P.host near far link cipher w (omega arith) in
      let next : (s.write_seq + 1) % 2 ^ 64 ≡ s.write_seq + 1 = mod-eq_of_lt (omega arith) in
      let counted = step.counted in
      sent w' (ap (λ raw. write_raw P raw cipher w) step.raw_s ∙ e) (record {
        raw_s = step.raw_s;
        raw_r = step.raw_r;
        same_key = step.same_key;
        counted = omega (arith, length-append records (t ∷ []));
        below = omega arith;
        wire =
            p
            ∙ ap (λ x. x ++ frame cipher) step.wire
            ∙ ap₂
                (λ a n.
                  seals P r.read_aead r.read_seq records
                  ++ frame (P.aead_seal a (nonce_for n) t []))
                step.same_key (sym step.counted)
            ∙ sym (seals-append P r.read_aead r.read_seq records t);
        sized = All-append IsRecord records (t ∷ []) step.sized ((pos, le), tt);
      })

  -- A round whose record was sent goes on with what is left.
  pub write_round :
      (fuel : ℕ) (s : Conn P) (written x : ℕ) (rest : Bytes) (w w' : P.World)
      → s.write_seq < max_seq
      → write_raw P s.raw
          (P.aead_seal s.write_aead (nonce_for s.write_seq) (take max_plain (x ∷ rest)) [])
          w
        ≡ (ok tt, w')
      → write_loop P (suc fuel) s written (x ∷ rest) w
        ≡ write_loop P fuel
            (bump s)
            (written + length (take max_plain (x ∷ rest)))
            (drop max_plain (x ∷ rest))
            w'
  unfolding write_loop
  write_round fuel s written x rest w w' room e =
      rw (ne→== s.write_seq max_seq (omega arith), e, write_loop)
        (ap
          (λ (p : Outcome (Unit {0}) × P.World).
            write_loop P fuel (bump s) (written + length (take max_plain (x ∷ rest)))
              (drop max_plain (x ∷ rest)) p.1)
          e)

  abbrev Wrote : ℕ → Conn P → ℕ → Bytes → P.World → List Bytes → Type 0
  Wrote fuel s written rest w records =
      (s' : Conn P) × (w' : P.World) × (write_loop P fuel s written rest w
        ≡ (ok (record { count = written + length rest; error = none }), s', w'))
      × InStep P near far link s' r w' (records ++ chunks fuel rest)

  write_loop_lem :
      (fuel : ℕ) (s : Conn P) (written : ℕ) (rest : Bytes) (w : P.World) (records : List Bytes)
      → InStep P near far link s r w records
      → length rest ≤ fuel
      → s.write_seq + length (chunks fuel rest) ≤ max_seq
      → Wrote fuel s written rest w records
  unfolding chunks
  write_loop_lem fuel s written [] w records step h room = (
    s,
    w,
    unfold write_loop in ap (λ n. (ok (record { count = n; error = none }), s, w)) (omega arith),
    subst (InStep P near far link s r w) (sym (append-nil records)) step,
  )
  write_loop_lem zero s written (x ∷ rest) w records step h room = absurd (omega arith)
  write_loop_lem (suc fuel) s written (x ∷ rest) w records step h room =
      let t = take max_plain (x ∷ rest) in
      let ht = length-take max_plain (x ∷ rest) in
      let hd = length-drop max_plain (x ∷ rest) in
      elim (send_record s w records t step (omega arith, omega arith) (omega arith)) [
        | sent w' e step' ↦
            let next : (s.write_seq + 1) % 2 ^ 64 ≡ s.write_seq + 1 = mod-eq_of_lt (omega arith) in
            let (s', w'', e', step'') =
              write_loop_lem fuel (bump s) (written + length t) (drop max_plain (x ∷ rest)) w'
                (records ++ (t ∷ [])) step' (omega arith) (omega arith) in
            (
              s',
              w'',
              write_round fuel s written x rest w w' (omega arith) e
                  ∙ e'
                  ∙ ap (λ n. (ok (record { count = n; error = none }), s', w'')) (omega arith),
              subst (InStep P near far link s' r w'')
                  (append_assoc records (t ∷ []) (chunks fuel (drop max_plain (x ∷ rest)))) step'',
            )
      ]

  -- From two ends in step on a connection that is up, if the libraries work and while sequence
  -- numbers last, Write takes all of `b`: it reports `len(b)` and no error, leaves the two ends
  -- in step, and `b` stands at the back of the bytes that the reader has not handed out.
  pub write-InStep :
      (s : Conn P) (b : Bytes) (w : P.World) (records : List Bytes)
      → InStep P near far link s r w records
      → s.write_seq + length (chunks (length b) b) ≤ max_seq
      → (s' : Conn P) × (w' : P.World) × (records' : List Bytes) × (write P s b w
          ≡ (ok (record { count = length b; error = none }), s', w'))
        × InStep P near far link s' r w' records'
        × (unread P r records' ≡ unread P r records ++ b)
  unfolding write
  write-InStep s b w records step room =
      let (s', w', e, step') = write_loop_lem (length b) s 0 b w records step (omega arith) room in
      (
        s',
        w',
        records ++ chunks (length b) b,
        e ∙ ap (λ n. (ok (record { count = n; error = none }), s', w')) (omega arith),
        step',
        ap (λ x. r.read_buf ++ x)
              (concat-append records (chunks (length b) b)
                ∙ ap (λ x. concat records ++ x) (concat-chunks (length b) b (omega arith)))
            ∙ sym (append_assoc r.read_buf (concat records) b),
      )
