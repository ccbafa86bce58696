-- ===== src/Messages/Response.antt =====
-- The wire form of the responder's message (handshake.go).
use zwing.Base.{ℕ, ◌+◌, ◌≤◌, ◌≡◌, sym, subst, ap, ap₂, ◌∙◌, ◌++◌, [], inl, inr, arith}
use zwing.Base.{Bytes, IsByte, All, All-append_right, length, length-append, take, drop}
use zwing.Base.{ltb, le→ltb, append_assoc, append-nil}
use zwing.Base.{
  Outcome, ok, and_then, bind_ok, bind-eq_ok, via, or_nil, ok_inj, length-drop, length-take,
  take-append-drop,
}
use zwing.Base.{Bool-cases, ltb→le}
use zwing.Kem.{xwing_ciphertext_size}
use zwing.Messages.Bounds.{read_n_eq, read_u16_eq}
use zwing.Messages.{HandshakeResponse, read_u16, read_n}
use zwing.Messages.{marshal_handshake_response}
use zwing.Messages.{parse_handshake_response}
use zwing.Messages.{or_zero, read_handshake_response}
use zwing.Messages.Reading.{u16_bytes, field, IsU16, append_u16_ok}
use zwing.Messages.Reading.{read_u16_lem, read_n_lem, at_end_lem}
use zwing.Messages.Reading.{read_u16-eq_ok, read_n-eq_ok, at_end-eq_ok}

-- A response with a ciphertext of its size is parsed back from its wire form.
pub marshal_handshake_response_ok :
    (h : HandshakeResponse)
    → IsU16 (length h.encrypted_id)
    → marshal_handshake_response h ≡ ok (h.xwing_ciphertext ++ field h.encrypted_id)
unfolding marshal_handshake_response and_then
marshal_handshake_response_ok h hu =
    rw (append_u16_ok h.xwing_ciphertext (length h.encrypted_id) hu)
      (ap ok (append_assoc h.xwing_ciphertext (u16_bytes (length h.encrypted_id)) h.encrypted_id))

read_handshake_response_lem :
    (ct enc : Bytes)
    → length ct ≡ xwing_ciphertext_size
    → IsU16 (length enc)
    → read_handshake_response (ct ++ field enc)
      ≡ (ok (record { xwing_ciphertext = ct; encrypted_id = enc }), [])
unfolding read_handshake_response
read_handshake_response_lem ct enc hc hu =
    bind_ok _ _ _
      (ap or_nil_pair (ap (λ n. read_n n (ct ++ field enc)) (sym hc) ∙ read_n_lem ct (field enc)))
    ∙ bind_ok _ _ _ (ap or_zero_pair (read_u16_lem (length enc) enc hu))
    ∙ bind_ok _ _ _ (ap (λ b. read_n (length enc) b) (sym (append-nil enc)) ∙ read_n_lem enc [])
    ∙ at_end_lem (record { xwing_ciphertext = ct; encrypted_id = enc })
  where
    or_nil_pair : Outcome Bytes × Bytes → Outcome Bytes × Bytes
    or_nil_pair p = (or_nil p.0, p.1)

    or_zero_pair : Outcome ℕ × Bytes → Outcome ℕ × Bytes
    or_zero_pair p = (or_zero p.0, p.1)

-- A HandshakeResponse with a ciphertext of its size and a payload with a length of 16 bits is
-- parsed back from its wire form.
pub parse-marshal_handshake_response :
    (h : HandshakeResponse)
    → length h.xwing_ciphertext ≡ xwing_ciphertext_size
    → IsU16 (length h.encrypted_id)
    → and_then (marshal_handshake_response h) parse_handshake_response ≡ ok h
unfolding parse_handshake_response and_then
parse-marshal_handshake_response h hc hu =
    let ct = h.xwing_ciphertext in
    let enc = h.encrypted_id in
    rw
      (
        marshal_handshake_response_ok h hu,
        le→ltb (length (ct ++ field enc)) (xwing_ciphertext_size + 2)
            (omega (arith, length-append ct (field enc))),
      )
      (ap (λ p. p.0) (unfold read_handshake_response in read_handshake_response_lem ct enc hc hu))

-- Behind the length check neither of the two reads whose errors are dropped can fail.
response_reads :
    (bs : Bytes)
    → xwing_ciphertext_size + 2 ≤ length bs
    → (read_n xwing_ciphertext_size bs
        ≡ (ok (take xwing_ciphertext_size bs), drop xwing_ciphertext_size bs))
      × (2 ≤ length (drop xwing_ciphertext_size bs))
response_reads bs h = (
  rw (read_n_eq xwing_ciphertext_size bs, le→ltb (length bs) 1120 (omega arith)),
  omega (arith, length-drop 1120 bs),
)

read_u16_of_two :
    (buf : Bytes) → 2 ≤ length buf → (or_zero (read_u16 buf).0, (read_u16 buf).1) ≡ read_u16 buf
read_u16_of_two buf h = rw (read_u16_eq buf, le→ltb (length buf) 2 h)

read_handshake_response-eq_ok :
    (bs rest : Bytes) (r : HandshakeResponse)
    → All IsByte bs
    → xwing_ciphertext_size + 2 ≤ length bs
    → read_handshake_response bs ≡ (ok r, rest)
    → (length r.xwing_ciphertext ≡ xwing_ciphertext_size)
      × IsU16 (length r.encrypted_id)
      × (bs ≡ r.xwing_ciphertext ++ field r.encrypted_id)
unfolding read_handshake_response
read_handshake_response-eq_ok bs rest r bytes long h =
    let (reads, two) = response_reads bs long in
    let split = take-append-drop xwing_ciphertext_size bs in
    elim (bind-eq_ok _ _ bs h) [
      | via ct b1 e1 h1 ↦ elim (bind-eq_ok _ _ b1 h1) [
        | via n b2 e2 h2 ↦ elim (bind-eq_ok _ _ b2 h2) [
          | via enc b3 e3 h3 ↦
              let e1' = rw reads at e1 in
              let front : take 1120 bs ≡ ct = ok_inj (ap (λ p. p.0) e1') in
              let back : drop 1120 bs ≡ b1 = ap (λ p. p.1) e1' in
              let bytes1 = subst (All IsByte) back (
                All-append_right IsByte (take 1120 bs) (drop 1120 bs)
                  (subst (All IsByte) (sym split) bytes)) in
              let (c2, un, _) =
                read_u16-eq_ok b1 b2 n
                  (sym (read_u16_of_two b1 (subst (λ b. 2 ≤ length b) back two)) ∙ e2) bytes1 in
              let (c3, hn) = read_n-eq_ok n b2 enc b3 e3 in
              let (c4, made) = at_end-eq_ok _ r b3 rest h3 in
              subst
                (λ (q : HandshakeResponse).
                  (length q.xwing_ciphertext ≡ xwing_ciphertext_size)
                  × IsU16 (length q.encrypted_id)
                  × (bs ≡ q.xwing_ciphertext ++ field q.encrypted_id))
                made
                (
                  ap length (sym front) ∙ omega (arith, length-take 1120 bs),
                  rw hn un,
                  sym split
                      ∙ ap₂ ◌++◌ front back
                      ∙ ap (λ b. ct ++ b) (rw (hn, c2, c3, c4, append-nil)),
                )
        ]
      ]
    ]

-- A byte string that is parsed as a HandshakeResponse is its wire form, and its ciphertext has
-- its size.
pub marshal-parse_handshake_response :
    (bs : Bytes) (r : HandshakeResponse)
    → All IsByte bs
    → parse_handshake_response bs ≡ ok r
    → (marshal_handshake_response r ≡ ok bs) × (length r.xwing_ciphertext ≡ xwing_ciphertext_size)
unfolding parse_handshake_response
marshal-parse_handshake_response bs r bytes h =
    elim (Bool-cases (ltb (length bs) (xwing_ciphertext_size + 2))) [
      | inl short ↦ cc (rw short at h)
      | inr long ↦
          let run = rw long at h in
          let (hc, hu, made) =
            read_handshake_response-eq_ok bs (read_handshake_response bs).1 r bytes
              (ltb→le _ _ long) (λ i. (run i, (read_handshake_response bs).1)) in
          (marshal_handshake_response_ok r hu ∙ ap ok (sym made), hc)
    ]
