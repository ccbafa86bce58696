-- ===== src/Channel/Stream/Filling.antt =====
-- Write on a connection that is up, to the end of the sequence numbers: what it takes, and why it
-- stops.
use zwing.Base.{
  ℕ, zero, suc, ◌+◌, ◌<◌, ◌≤◌, ◌≡◌, refl, ap, ◌∙◌, sym, Bytes, Bool-cases, ◌⊎◌, inl, inr, none,
  some, Option, List, [], ◌∷◌, ◌++◌, length, take, drop, arith, append_assoc, append-nil,
  length-drop, length-take, ◌==◌, ==→ne, ==→eq, Error, ok, sequence_exhausted,
}
use zwing.Host.Link.{Link}
use zwing.Platform.{Platform}
use zwing.Platform.Laws.{AeadLaws}
use zwing.Channel.{Conn, WriteReturn, write_loop, write, write_raw, max_seq, max_plain}
use zwing.Aead.{nonce_for}
use zwing.Channel.Stream.{concat, concat_one, concat-append, InStep, unread}
use zwing.Channel.Stream.Writing.{bump, sent, send_record, write_round}

take_nil : (n : ℕ) → take {A = ℕ} n [] ≡ []
unfolding take
take_nil zero = refl
take_nil (suc n) = refl

take_zero : (xs : Bytes) → take 0 xs ≡ []
unfolding take
take_zero xs = refl

take-take-drop :
    (k m n : ℕ) (xs : Bytes)
    → n ≡ length (take k xs) + m
    → take k xs ++ take m (drop k xs) ≡ take n xs
unfolding take drop
take-take-drop zero m n xs e = ap (λ i. take i xs) (omega arith)
take-take-drop (suc k) m n [] e = take_nil m ∙ sym (take_nil n)
take-take-drop (suc k) m zero (x ∷ xs) e = absurd (omega arith)
take-take-drop (suc k) m (suc n) (x ∷ xs) e =
    ap (λ r. x ∷ r) (take-take-drop k m n xs (omega arith))

module _ (P : Platform) (aead : AeadLaws P) (near far : P.RawConn) (link : Link P.host near far)
    (r : Conn P) where
  -- The end of a write: all was taken, or the last sequence number is reached.
  abbrev pub Stopped : Bytes → ℕ → Option Error → Conn P → Type 0
  Stopped b n error s' =
      ((error ≡ none) × (n ≡ length b))
      ⊎ ((error ≡ some sequence_exhausted) × (s'.write_seq ≡ max_seq))

  record LoopFilled (fuel : ℕ) (s : Conn P) (written : ℕ) (rest : Bytes) (w : P.World)
      (records : List Bytes) : Type 0 where
    n : ℕ
    error : Option Error
    s' : Conn P
    w' : P.World
    records' : List Bytes
    ran :
        write_loop P fuel s written rest w
        ≡ (ok (record { count = written + n; error = error }), s', w')
    fits : n ≤ length rest
    back : concat records' ≡ concat records ++ take n rest
    stopped : Stopped rest n error s'
    in_step : InStep P near far link s' r w' records'

  -- A loop that stops before its first round.
  unmoved :
      (fuel : ℕ) (s : Conn P) (written : ℕ) (rest : Bytes) (w : P.World) (records : List Bytes)
      (error : Option Error)
      → InStep P near far link s r w records
      → write_loop P fuel s written rest w ≡ (ok (record { count = written; error = error }), s, w)
      → Stopped rest 0 error s
      → LoopFilled fuel s written rest w records
  unmoved fuel s written rest w records error step ran stopped =
      let same : written ≡ written + 0 = omega arith in
      record {
        n = 0;
        error = error;
        s' = s;
        w' = w;
        records' = records;
        ran = ran ∙ ap (λ n. (ok (record { count = n; error = error }), s, w)) same;
        fits = omega arith;
        back = sym (ap (λ x. concat records ++ x) (take_zero rest) ∙ append-nil (concat records));
        stopped = stopped;
        in_step = step;
      }

  -- A loop after one round.
  moved :
      (fuel : ℕ) (s : Conn P) (written x : ℕ) (rest : Bytes) (w w1 : P.World) (records : List Bytes)
      → s.write_seq < max_seq
      → let t = take max_plain (x ∷ rest) in
        write_raw P s.raw (P.aead_seal s.write_aead (nonce_for s.write_seq) t []) w ≡ (ok tt, w1)
        → LoopFilled fuel
            (bump P aead near far link r s)
            (written + length t)
            (drop max_plain (x ∷ rest))
            w1
            (records ++ (t ∷ []))
        → LoopFilled (suc fuel) s written (x ∷ rest) w records
  moved fuel s written x rest w w1 records room e f =
      let t = take max_plain (x ∷ rest) in
      let left = drop max_plain (x ∷ rest) in
      let ht = length-take max_plain (x ∷ rest) in
      let hd = length-drop max_plain (x ∷ rest) in
      let fits = f.fits in
      let sum : written + length t + f.n ≡ written + (length t + f.n) = omega arith in
      record {
        n = length t + f.n;
        error = f.error;
        s' = f.s';
        w' = f.w';
        records' = f.records';
        ran =
            write_round P aead near far link r fuel s written x rest w w1 room e
            ∙ f.ran
            ∙ ap (λ n. (ok (record { count = n; error = f.error }), f.s', f.w')) sum;
        fits = omega arith;
        back =
            f.back
            ∙ ap (λ c. c ++ take f.n left) (concat-append records (t ∷ []))
            ∙ append_assoc (concat records) (concat (t ∷ [])) (take f.n left)
            ∙ ap (λ c. concat records ++ (c ++ take f.n left)) (concat_one t)
            ∙ ap (λ c. concat records ++ c)
                (take-take-drop max_plain f.n (length t + f.n) (x ∷ rest) refl);
        stopped = elim (f.stopped) [ inl (e, n) ↦ inl (e, omega arith) | inr end ↦ inr end ];
        in_step = f.in_step;
      }

  write_loop-LoopFilled :
      (fuel : ℕ) (s : Conn P) (written : ℕ) (rest : Bytes) (w : P.World) (records : List Bytes)
      → InStep P near far link s r w records
      → length rest ≤ fuel
      → LoopFilled fuel s written rest w records
  write_loop-LoopFilled fuel s written [] w records step h =
      unmoved fuel s written [] w records none step (unfold write_loop in refl) (inl (refl, refl))
  write_loop-LoopFilled zero s written (x ∷ rest) w records step h = absurd (omega arith)
  write_loop-LoopFilled (suc fuel) s written (x ∷ rest) w records step h =
      elim (Bool-cases (s.write_seq == max_seq)) [
        | inl full ↦
            unmoved (suc fuel) s written (x ∷ rest) w records (some sequence_exhausted) step
              (unfold write_loop in rw (full, write_loop) refl)
              (inr (refl, ==→eq s.write_seq max_seq full))
        | inr differs ↦
            let room = ==→ne s.write_seq max_seq differs in
            let t = take max_plain (x ∷ rest) in
            let ht = length-take max_plain (x ∷ rest) in
            let hd = length-drop max_plain (x ∷ rest) in
            let below = step.below in
            elim (send_record P aead near far link r s w records t step (omega arith, omega arith)
              (omega arith)) [
                | sent w1 e step1 ↦ moved fuel s written x rest w w1 records (omega arith) e (
                    write_loop-LoopFilled fuel (bump P aead near far link r s) (written + length t)
                      (drop max_plain (x ∷ rest)) w1 (records ++ (t ∷ [])) step1 (omega arith))
              ]
      ]

  -- A write, to the end of the sequence numbers if it must.
  pub record Filled (s : Conn P) (b : Bytes) (w : P.World) (records : List Bytes) : Type 0 where
    pub ret : WriteReturn P
    pub s' : Conn P
    pub w' : P.World
    pub records' : List Bytes
    pub ran : write P s b w ≡ (ok ret, s', w')
    pub fits : ret.count ≤ length b
    pub back : unread P r records' ≡ unread P r records ++ take ret.count b
    pub stopped : Stopped b ret.count ret.error s'
    pub in_step : InStep P near far link s' r w' records'

  -- From two ends in step on a connection that is up, if the libraries work, Write puts as many
  -- bytes of `b` as it reports at the back of what the reader has not handed out, and leaves the
  -- ends in step. It stops with all of `b` and no error, or with ErrSequenceExhausted at the last
  -- sequence number.
  pub write-Filled :
      (s : Conn P) (b : Bytes) (w : P.World) (records : List Bytes)
      → InStep P near far link s r w records
      → Filled s b w records
  unfolding write
  write-Filled s b w records step =
      let f = write_loop-LoopFilled (length b) s 0 b w records step (omega arith) in
      let fits = f.fits in
      let whole : 0 + f.n ≡ f.n = omega arith in
      record {
        ret = record { count = f.n; error = f.error };
        s' = f.s';
        w' = f.w';
        records' = f.records';
        ran = f.ran ∙ ap (λ n. (ok (record { count = n; error = f.error }), f.s', f.w')) whole;
        fits = fits;
        back =
            ap (λ c. r.read_buf ++ c) f.back
            ∙ sym (append_assoc r.read_buf (concat records) (take f.n b));
        stopped = f.stopped;
        in_step = f.in_step;
      }
