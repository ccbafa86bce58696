-- ===== src/Messages/RoundTrip.antt =====
-- The wire forms of the initiator's message and of the sealed payload (handshake.go).
use zwing.Base.{◌<◌, ◌≡◌, refl, sym, subst, ap, ◌∙◌, ◌++◌, [], ◌⊎◌, arith}
use zwing.Base.{Bytes, IsByte, All, All-append_right, length}
use zwing.Base.{append_assoc, append-nil}
use zwing.Base.{ok, panic, and_then, bind-eq_ok, via, u16_out_of_range}
use zwing.Messages.{HandshakeInit, append_u16}
use zwing.Messages.{marshal_handshake_init, build_resp_id_payload}
use zwing.Messages.{parse_handshake_init, split_resp_id_payload}
use zwing.Messages.Reading.{u16_bytes, field, IsU16, append_u16_ok}
use zwing.Messages.Reading.{read_two, read_two_lem}
use zwing.Messages.Reading.{read_u16-eq_ok, read_n-eq_ok, at_end-eq_ok}

-- Two fields with lengths in two bytes are the payload.
pub build_resp_id_payload_ok :
    (id sig : Bytes)
    → IsU16 (length id)
    → IsU16 (length sig)
    → build_resp_id_payload id sig ≡ ok (field id ++ field sig)
unfolding build_resp_id_payload and_then
build_resp_id_payload_ok id sig hi hs =
    rw (append_u16_ok [] (length id) hi, append_u16_ok (field id) (length sig) hs)
      (ap ok (append_assoc (field id) (u16_bytes (length sig)) sig))

-- The responder's payload is split into the identity and the signature that it was built from, if
-- both have lengths of 16 bits.
pub split-build_resp_id_payload :
    (id sig : Bytes)
    → IsU16 (length id)
    → IsU16 (length sig)
    → and_then (build_resp_id_payload id sig) split_resp_id_payload ≡ ok (id, sig)
unfolding split_resp_id_payload and_then
split-build_resp_id_payload id sig hi hs =
    rw (build_resp_id_payload_ok id sig hi hs)
      (unfold read_two in ap (λ p. p.0) (read_two_lem (λ x y. (x, y)) id sig hi hs))

marshal_handshake_init-build :
    (h : HandshakeInit)
    → marshal_handshake_init h ≡ build_resp_id_payload h.identity_pub h.signature
unfolding marshal_handshake_init build_resp_id_payload
marshal_handshake_init-build h = refl

pub marshal_handshake_init_ok :
    (h : HandshakeInit)
    → IsU16 (length h.identity_pub)
    → IsU16 (length h.signature)
    → marshal_handshake_init h ≡ ok (field h.identity_pub ++ field h.signature)
marshal_handshake_init_ok h hi hs =
    marshal_handshake_init-build h ∙ build_resp_id_payload_ok h.identity_pub h.signature hi hs

-- A HandshakeInit whose fields have lengths of 16 bits is parsed back from its wire form.
pub parse-marshal_handshake_init :
    (h : HandshakeInit)
    → IsU16 (length h.identity_pub)
    → IsU16 (length h.signature)
    → and_then (marshal_handshake_init h) parse_handshake_init ≡ ok h
unfolding parse_handshake_init and_then
parse-marshal_handshake_init h hi hs =
    rw (marshal_handshake_init-build h, build_resp_id_payload_ok h.identity_pub h.signature hi hs)
      (unfold read_two in
        ap (λ p. p.0)
          (read_two_lem (λ x y. record { identity_pub = x; signature = y }) h.identity_pub
            h.signature hi hs))

-- The wire form of a field that is too long for its length is a panic, not a shorter field.
marshal_handshake_init_panic :
    (h : HandshakeInit)
    → (0xFFFF < length h.identity_pub) ⊎ (0xFFFF < length h.signature)
    → marshal_handshake_init h ≡ panic u16_out_of_range
unfolding marshal_handshake_init append_u16 and_then
marshal_handshake_init_panic h bad = ground arith

-- Two fields, read to the end, are all there was.
read_two-eq_ok :
    {A : Type 0} (f : Bytes → Bytes → A) (bs rest : Bytes) (a : A)
    → All IsByte bs
    → read_two f bs ≡ (ok a, rest)
    → (xs : Bytes) × (ys : Bytes) × IsU16 (length xs)
      × IsU16 (length ys)
      × (f xs ys ≡ a)
      × (bs ≡ field xs ++ field ys)
unfolding read_two
read_two-eq_ok f bs rest a bytes h = elim (bind-eq_ok _ _ bs h) [
  | via n b1 e1 h1 ↦ elim (bind-eq_ok _ _ b1 h1) [
    | via xs b2 e2 h2 ↦ elim (bind-eq_ok _ _ b2 h2) [
      | via m b3 e3 h3 ↦ elim (bind-eq_ok _ _ b3 h3) [
        | via ys b4 e4 h4 ↦
            let (c1, un, by1) = read_u16-eq_ok bs b1 n e1 bytes in
            let (c2, hx) = read_n-eq_ok n b1 xs b2 e2 in
            let (c3, um, _) =
              read_u16-eq_ok b2 b3 m e3
                (All-append_right IsByte xs b2 (subst (All IsByte) c2 by1)) in
            let (c4, hy) = read_n-eq_ok m b3 ys b4 e4 in
            let (c5, fa) = at_end-eq_ok (f xs ys) a b4 rest h4 in
            (xs, ys, rw hx un, rw hy um, fa, rw (hx, hy, c1, c2, c3, c4, c5, append-nil))
      ]
    ]
  ]
]

-- A byte string that the splitter takes is the payload built from the identity and the signature
-- that it returns.
pub build-split_resp_id_payload :
    (bs id sig : Bytes)
    → All IsByte bs
    → split_resp_id_payload bs ≡ ok (id, sig)
    → build_resp_id_payload id sig ≡ ok bs
unfolding split_resp_id_payload
build-split_resp_id_payload bs id sig bytes h =
    unfold read_two in
    let (xs, ys, hx, hy, fa, eb) =
      read_two-eq_ok (λ x y. (x, y)) bs _ (id, sig) bytes (λ i. (h i, (read_two pair bs).1)) in
    ap (λ p. build_resp_id_payload p.0 p.1) (sym fa)
    ∙ build_resp_id_payload_ok xs ys hx hy
    ∙ ap ok (sym eb)
  where
    pair : Bytes → Bytes → Bytes × Bytes
    pair x y = (x, y)

-- A byte string that is parsed as a HandshakeInit is its wire form.
pub marshal-parse_handshake_init :
    (bs : Bytes) (h : HandshakeInit)
    → All IsByte bs
    → parse_handshake_init bs ≡ ok h
    → marshal_handshake_init h ≡ ok bs
unfolding parse_handshake_init
marshal-parse_handshake_init bs h bytes e =
    unfold read_two in
    let (xs, ys, hx, hy, fa, eb) =
      read_two-eq_ok init_of bs _ h bytes (λ i. (e i, (read_two init_of bs).1)) in
    ap marshal_handshake_init (sym fa)
    ∙ marshal_handshake_init-build (init_of xs ys)
    ∙ build_resp_id_payload_ok xs ys hx hy
    ∙ ap ok (sym eb)
  where
    init_of : Bytes → Bytes → HandshakeInit
    init_of x y = record { identity_pub = x; signature = y }
