-- ===== src/Channel/Stream/Reading.antt =====
-- Read (channel.go) on the stream of bytes that is on its way.
use zwing.Base.{
  length_zero, ℕ, ◌+◌, ◌%◌, ◌^◌, ◌<◌, ◌≤◌, ◌≡◌, refl, ap, ◌∙◌, sym, Bytes, Bool-cases, ◌⊎◌, inl,
  inr, false, none, some, List, [], ◌∷◌, ◌++◌,
}
use zwing.Base.{
  length, length-append, take, drop, arith, append_assoc, append-nil, length-take, min, ok, ne→==,
}
use zwing.Base.{
  copy_into, length-copy_into, take-append, take_all, drop_all, take-append-drop, ltb, lt→ltb,
  ltb→lt, ltb→le, if◌then◌else◌,
}
use native.Mathlib.Nat.{mod-eq_of_lt}
use zwing.Host.Link.{Link}
use zwing.Platform.{Platform}
use zwing.Platform.Laws.{AeadLaws}
use zwing.Wire.Frames.{frame, read_frame_lem}
use zwing.Wire.{read_frame}
use zwing.Aead.{nonce_for}
use zwing.Channel.{Conn, ReadReturn, read, read_buffered, open_frame, read_raw, max_seq}
use zwing.Channel.Stream.{concat, seals, seals-cons, InStep, unread}

-- What `copy` put into the buffer, and what it left of its source, is the source.
pub copied :
    (b src : Bytes)
    → take (min (length b) (length src)) (copy_into b src) ++ drop (min (length b) (length src)) src
      ≡ src
unfolding copy_into
copied b src = elim (Bool-cases (ltb (length src) (length b))) [
  | inl longer ↦
      let lt = ltb→lt (length src) (length b) longer in
      let n : min (length b) (length src) ≡ length src = omega arith in
      rw
        (
          n,
          take_all (length b) src (omega arith),
          take-append (length src) src (drop (length src) b) refl,
        )
        (ap (λ r. src ++ r) (drop_all (length src) src (omega arith)) ∙ append-nil src)
  | inr shorter ↦
      let le = ltb→le (length src) (length b) shorter in
      let n : min (length b) (length src) ≡ length b = omega arith in
      rw n (
        ap (λ r. r ++ drop (length b) src)
          (take-append (length b) (take (length b) src) (drop (length src) b)
            (omega (arith, length-take (length b) src)))
        ∙ take-append-drop (length b) src)
]

-- What Read keeps of a record.
pub kept :
    (m : ℕ) (text old : Bytes)
    → old ≡ []
    → (if ltb (min m (length text)) (length text) then drop (min m (length text)) text else old)
      ≡ drop (min m (length text)) text
kept m text old empty = elim (Bool-cases (ltb (min m (length text)) (length text))) [
  | inl more ↦ rw more
  | inr all ↦
      let le = ltb→le (min m (length text)) (length text) all in
      rw all (empty ∙ sym (drop_all (min m (length text)) text le))
]

module _ (P : Platform) where
  -- A read that handed out the front of the stream and left the rest.
  pub record HandedOut (near far : P.RawConn) (link : Link P.host near far) (s r : Conn P)
      (b : Bytes) (w : P.World) (records : List Bytes) : Type 0 where
    pub ret : ReadReturn P
    pub r' : Conn P
    pub w' : P.World
    pub records' : List Bytes
    pub ran : read P r b w ≡ (ok ret, r', w')
    pub no_error : ret.error ≡ none
    pub fits : ret.count ≤ length b
    pub whole : length ret.buffer ≡ length b
    pub progress : (length b ≡ 0) ⊎ (0 < ret.count)
    pub front : take ret.count ret.buffer ++ unread P r' records' ≡ unread P r records
    pub in_step : InStep P near far link s r' w' records'

  module _ (aead : AeadLaws P) (near far : P.RawConn) (link : Link P.host near far) (s r : Conn P)
      (b : Bytes) (w : P.World) (records : List Bytes) where
    from_buffer :
        InStep P near far link s r w records
        → 0 < length r.read_buf
        → HandedOut near far link s r b w records
    unfolding read read_buffered
    from_buffer step more =
        let n = min (length b) (length r.read_buf) in
        record {
          ret = record { buffer = copy_into b r.read_buf; count = n; error = none };
          r' = record r { read_buf = drop n r.read_buf };
          w' = w;
          records' = records;
          ran = rw (lt→ltb 0 (length r.read_buf) more, read);
          no_error = refl;
          fits = omega arith;
          whole = length-copy_into b r.read_buf;
          progress = ground arith;
          front =
              sym (
                append_assoc (take n (copy_into b r.read_buf)) (drop n r.read_buf) (concat records))
              ∙ ap (λ x. x ++ concat records) (copied b r.read_buf);
          in_step = record {
            raw_s = step.raw_s;
            raw_r = step.raw_r;
            same_key = step.same_key;
            counted = step.counted;
            below = step.below;
            wire = step.wire;
            sized = step.sized;
          };
        }

  -- A record that opens: what is read of it, and what is kept.
  open_frame_ok :
      (r : Conn P) (b frame text : Bytes)
      → r.read_seq < max_seq
      → r.read_buf ≡ []
      → P.aead_open r.read_aead (nonce_for r.read_seq) frame [] ≡ some text
      → open_frame P r b frame ≡ (
        record { buffer = copy_into b text; count = min (length b) (length text); error = none },
        record r { read_seq = r.read_seq + 1; read_buf = drop (min (length b) (length text)) text },
      )
  unfolding open_frame
  open_frame_ok r b frame text room empty e =
      let next : (r.read_seq + 1) % 2 ^ 64 ≡ r.read_seq + 1 = mod-eq_of_lt (omega arith) in
      let n = min (length b) (length text) in
      rw (ne→== r.read_seq max_seq (omega arith), e, next, open_frame)
        (ap
          (λ left. (
            record { buffer = copy_into b text; count = n; error = none },
            record r { read_seq = r.read_seq + 1; read_buf = left },
          ))
          (kept (length b) text r.read_buf empty))

  open_frame_lem :
      (far : P.RawConn) (r : Conn P) (b text frame_bytes : Bytes) (w w' : P.World)
      → ltb 0 (length r.read_buf) ≡ false
      → r.raw ≡ some far
      → read_frame P.host far w ≡ (ok frame_bytes, w')
      → read P r b w ≡ (let (ret, r') = open_frame P r b frame_bytes in (ok ret, r', w'))
  unfolding read
  open_frame_lem far r b text frame_bytes w w' empty raw e =
      let e' : read_raw P r.raw w ≡ (ok frame_bytes, w') = ap (λ x. read_raw P x w) raw ∙ e in
      rw (empty, e', read)

  module _ (aead : AeadLaws P) (near far : P.RawConn) (link : Link P.host near far) (s r : Conn P)
      (b : Bytes) (w : P.World) where
    from_wire :
        (t : Bytes) (ts : List Bytes)
        → InStep P near far link s r w (t ∷ ts)
        → ltb 0 (length r.read_buf) ≡ false
        → HandedOut near far link s r b w (t ∷ ts)
    unfolding concat
    from_wire t ts step none_left =
        let empty = length_zero r.read_buf (ltb→le 0 (length r.read_buf) none_left) in
        let cipher = P.aead_seal r.read_aead (nonce_for r.read_seq) t [] in
        let hlen = aead.seal_length r.read_aead (nonce_for r.read_seq) t [] in
        let sized = step.sized in
        let counted = step.counted in
        let below = step.below in
        let rest = seals P r.read_aead (r.read_seq + 1) ts in
        let (w1, e1, p1) =
          read_frame_lem P.host near far link cipher rest w (omega arith, omega arith)
            (step.wire ∙ seals-cons P r.read_aead r.read_seq t ts) in
        let n = min (length b) (length t) in
        record {
          ret = record { buffer = copy_into b t; count = n; error = none };
          r' = record r { read_seq = r.read_seq + 1; read_buf = drop n t };
          w' = w1;
          records' = ts;
          ran =
              open_frame_lem far r b t cipher w w1 none_left step.raw_r e1
              ∙ ap (λ (q : ReadReturn P × Conn P). (ok q.0, q.1, w1))
                  (open_frame_ok r b cipher t (omega arith) empty
                    (aead.open-seal r.read_aead (nonce_for r.read_seq) t []));
          no_error = refl;
          fits = omega arith;
          whole = length-copy_into b t;
          progress = ground (arith, sized.0.0);
          front =
              sym (append_assoc (take n (copy_into b t)) (drop n t) (concat ts))
              ∙ ap (λ x. x ++ concat ts) (copied b t)
              ∙ ap (λ x. x ++ concat (t ∷ ts)) (sym empty);
          in_step = record {
            raw_s = step.raw_s;
            raw_r = step.raw_r;
            same_key = step.same_key;
            counted = omega arith;
            below = step.below;
            wire = p1;
            sized = sized.1;
          };
        }

    -- From two ends in step on a connection that is up, if the libraries work and while bytes are
    -- on their way, Read hands out the front of the stream: no error, as many bytes as it
    -- reports, at least one if the buffer has room for one, and what it handed out with what is
    -- left unread is what was unread before; the two ends stay in step.
    pub read-HandedOut :
        (records : List Bytes)
        → InStep P near far link s r w records
        → 0 < length (unread P r records)
        → HandedOut near far link s r b w records
    unfolding concat
    read-HandedOut records step some_left = elim (Bool-cases (ltb 0 (length r.read_buf))) [
      | inl more ↦
          from_buffer aead near far link s r b w records step (ltb→lt 0 (length r.read_buf) more)
      | inr none_left ↦ unbuffered records step some_left none_left
    ]
      where
        unbuffered :
            (rs : List Bytes)
            → InStep P near far link s r w rs
            → 0 < length (unread P r rs)
            → ltb 0 (length r.read_buf) ≡ false
            → HandedOut near far link s r b w rs
        unbuffered [] st left e =
            absurd
              (omega (arith, length-append r.read_buf (concat []), ltb→le 0 (length r.read_buf) e))
        unbuffered (t ∷ ts) st left e = from_wire t ts st e
