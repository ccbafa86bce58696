-- ===== src/Wire/Frames.antt =====
-- What writing and reading frames does on any connection, and on a stream that is up.
use native.Mathlib.Nat.{mod-eq_of_lt}
use zwing.Base.{ℕ, ◌^◌, ◌%◌, ◌+◌, ◌≤◌, ◌<◌, ◌≡◌, refl, ap, ◌∙◌, ◌++◌, ◌⊎◌, arith}
use zwing.Base.{Bytes, length, length-append, take, drop, take-append, drop-append, append_assoc}
use zwing.Base.{put_be, get_be, length-put_be, get_be-put_be}
use zwing.Base.{◌==◌, lt→ltb, le→ltb, ne→==, if◌then◌else◌}
use zwing.Base.{ok, err, bind_ok, bind-eq_ok, via, message_too_large, invalid_wire_format}
use zwing.Host.{Host}
use zwing.Host.Link.{IsExact, Link}
use zwing.Wire.{max_frame_size, write_frame, read_payload, read_frame}

-- A payload that the reader of a frame takes.
abbrev pub IsPayload : Bytes → Type 0
IsPayload p = (0 < length p) × (length p ≤ max_frame_size)

-- The bytes of one frame.
pub frame : Bytes → Bytes
frame p = put_be 4 (length p) ++ p

pub length-frame : (p : Bytes) → length (frame p) ≡ 4 + length p
unfolding frame
length-frame p = omega (arith, length-append (put_be 4 (length p)) p, length-put_be 4 (length p))

module _ (H : Host) (c : H.RawConn) where
  -- A payload over the limit is refused before anything is written.
  write_frame_too_large :
      (p : Bytes) (w : H.World)
      → max_frame_size < length p
      → write_frame H c p w ≡ (err message_too_large, w)
  unfolding write_frame
  write_frame_too_large p w h = rw (lt→ltb _ _ h)

  read_payload_ok :
      (n : ℕ) (w : H.World)
      → 0 < n
      → n ≤ max_frame_size
      → read_payload H c n w ≡ H.conn_read_full c n w
  unfolding read_payload
  read_payload_ok n w pos le = rw (le→ltb _ _ le, ne→== n 0 (omega arith))

  read_payload-IsPayload :
      (n : ℕ) (w : H.World) {p : Bytes} {w' : H.World}
      → IsExact H
      → read_payload H c n w ≡ (ok p, w')
      → IsPayload p
  unfolding read_payload
  read_payload-IsPayload n w {p} {w'} exact e = ground (arith, exact.read_length c n w w' p)

  -- On any connection whose full reads return as many bytes as they are asked for, a payload that
  -- reading a frame returns is not empty and within the limit.
  pub read_frame-IsPayload :
      (w : H.World) {p : Bytes} {w' : H.World}
      → IsExact H
      → read_frame H c w ≡ (ok p, w')
      → IsPayload p
  unfolding read_frame
  read_frame-IsPayload w exact e = elim (bind-eq_ok _ _ w e) [
    | via hdr w1 first rest ↦ read_payload-IsPayload (get_be 0 hdr) w1 exact rest
  ]

module _ (H : Host) (near far : H.RawConn) (link : Link H near far) where
  open link use {pending, write, read}

  -- On a stream that is up, writing a payload within the limit succeeds and adds its frame, and
  -- nothing else, to the stream.
  pub write_frame_lem :
      (p : Bytes) (w : H.World)
      → length p ≤ max_frame_size
      → (w' : H.World) × (write_frame H near p w ≡ (ok tt, w'))
        × (pending w' ≡ pending w ++ frame p)
  unfolding write_frame frame
  write_frame_lem p w h =
      let len = length p in
      let (w1, e1, p1) = write (put_be 4 (len % 2 ^ 32)) w in
      let (w2, e2, p2) = write p w1 in
      (
        w2,
        rw (le→ltb max_frame_size len h) (bind_ok _ _ w e1 ∙ e2),
        p2
            ∙ ap (λ s. s ++ p) p1
            ∙ append_assoc (pending w) _ p
            ∙ ap (λ n. pending w ++ (put_be 4 n ++ p)) (mod-eq_of_lt (omega arith)),
      )

  -- The header of a frame takes four bytes off the stream.
  read_frame_header :
      (n : ℕ) (rest : Bytes) (w : H.World)
      → pending w ≡ put_be 4 n ++ rest
      → n < 2 ^ 32
      → (w' : H.World) × (pending w' ≡ rest) × (read_frame H far w ≡ read_payload H far n w')
  unfolding read_frame
  read_frame_header n rest w e h =
      let hdr = put_be 4 n in
      let (w1, e1, p1) =
        read 4 w (rw e (omega (arith, length-append hdr rest, length-put_be 4 n))) in
      (
        w1,
        p1 ∙ ap (drop 4) e ∙ drop-append 4 hdr rest (length-put_be 4 n),
        bind_ok _ _ w e1
            ∙ ap (λ b. read_payload H far (get_be 0 b) w1)
                (ap (take 4) e ∙ take-append 4 hdr rest (length-put_be 4 n))
            ∙ ap (λ k. read_payload H far k w1) (get_be-put_be 4 n h),
      )

  -- On a stream that is up and begins with the frame of a payload that is not empty and within
  -- the limit, reading takes that frame off the stream and returns the payload.
  pub read_frame_lem :
      (p rest : Bytes) (w : H.World)
      → IsPayload p
      → pending w ≡ frame p ++ rest
      → (w' : H.World) × (read_frame H far w ≡ (ok p, w')) × (pending w' ≡ rest)
  unfolding frame
  read_frame_lem p rest w (pos, le) e =
      let (w1, p1, e1) =
        read_frame_header (length p) (p ++ rest) w (e ∙ append_assoc _ p rest) (omega arith) in
      let (w2, e2, p2) = read (length p) w1 (rw p1 (omega (arith, length-append p rest))) in
      (
        w2,
        e1
            ∙ read_payload_ok H far (length p) w1 pos le
            ∙ e2
            ∙ ap (λ b. (ok b, w2)) (ap (take (length p)) p1 ∙ take-append _ p rest refl),
        p2 ∙ ap (drop (length p)) p1 ∙ drop-append _ p rest refl,
      )

  -- On a stream that is up, a length field of zero, or over the limit, is refused once its four
  -- bytes are read: the payload stays on the stream.
  pub read_frame_bad_length :
      (n : ℕ) (rest : Bytes) (w : H.World)
      → (n ≡ 0) ⊎ (max_frame_size < n)
      → n < 2 ^ 32
      → pending w ≡ put_be 4 n ++ rest
      → (w' : H.World) × (read_frame H far w
          ≡ (err (if n == 0 then invalid_wire_format else message_too_large), w'))
        × (pending w' ≡ rest)
  read_frame_bad_length n rest w bad h e =
      let (w1, p1, e1) = read_frame_header n rest w e h in
      (w1, e1 ∙ (unfold read_payload in ground arith), p1)
