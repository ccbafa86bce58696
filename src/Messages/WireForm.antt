-- ===== src/Messages/WireForm.antt =====
-- The parsers and the wire forms (handshake.go): which byte strings a parser takes.
use zwing.Base.{◌≡◌, ◌↔◌, sym, ap, ◌∙◌, arith, Bytes, IsByte, All, length, Outcome, ok, and_then}
use zwing.Kem.{xwing_ciphertext_size}
use zwing.Messages.{
  HandshakeInit, HandshakeResponse, append_u16, build_resp_id_payload, split_resp_id_payload,
  marshal_handshake_init, parse_handshake_init, marshal_handshake_response,
  parse_handshake_response,
}
use zwing.Messages.Reading.{IsU16}
use zwing.Messages.RoundTrip.{
  split-build_resp_id_payload, build-split_resp_id_payload, parse-marshal_handshake_init,
  marshal-parse_handshake_init,
}
use zwing.Messages.Response.{parse-marshal_handshake_response, marshal-parse_handshake_response}

-- A wire form that was made has fields whose lengths fit.
build_resp_id_payload-IsU16 :
    (id sig bs : Bytes)
    → build_resp_id_payload id sig ≡ ok bs
    → IsU16 (length id) × IsU16 (length sig)
unfolding build_resp_id_payload append_u16 and_then
build_resp_id_payload-IsU16 id sig bs e = ground arith

marshal_handshake_init-IsU16 :
    (h : HandshakeInit) (bs : Bytes)
    → marshal_handshake_init h ≡ ok bs
    → IsU16 (length h.identity_pub) × IsU16 (length h.signature)
unfolding marshal_handshake_init append_u16 and_then
marshal_handshake_init-IsU16 h bs e = ground arith

marshal_handshake_response-IsU16 :
    (h : HandshakeResponse) (bs : Bytes)
    → marshal_handshake_response h ≡ ok bs
    → IsU16 (length h.encrypted_id)
unfolding marshal_handshake_response append_u16 and_then
marshal_handshake_response-IsU16 h bs e = ground arith

-- What was made of a value is parsed, if the value's own wire form is.
parsed :
    {A : Type 0} (made : Outcome Bytes) (parse : Bytes → Outcome A) (a : A) (bs : Bytes)
    → made ≡ ok bs
    → and_then made parse ≡ ok a
    → parse bs ≡ ok a
unfolding and_then
parsed made parse a bs e h = ap (λ m. and_then m parse) (sym e) ∙ h

-- A string of bytes is split into an identity and a signature exactly when it is the payload that
-- is built from them.
pub split_resp_id_payload_iff :
    (bs id sig : Bytes)
    → All IsByte bs
    → (split_resp_id_payload bs ≡ ok (id, sig)) ↔ (build_resp_id_payload id sig ≡ ok bs)
split_resp_id_payload_iff bs id sig bytes = (
  build-split_resp_id_payload bs id sig bytes,
  λ e.
      let (hid, hsig) = build_resp_id_payload-IsU16 id sig bs e in
      parsed _ split_resp_id_payload (id, sig) bs e (split-build_resp_id_payload id sig hid hsig),
)

-- A string of bytes is parsed as a HandshakeInit exactly when it is the wire form of it.
pub parse_handshake_init_iff :
    (bs : Bytes) (h : HandshakeInit)
    → All IsByte bs
    → (parse_handshake_init bs ≡ ok h) ↔ (marshal_handshake_init h ≡ ok bs)
parse_handshake_init_iff bs h bytes = (
  marshal-parse_handshake_init bs h bytes,
  λ e.
      let (hid, hsig) = marshal_handshake_init-IsU16 h bs e in
      parsed _ parse_handshake_init h bs e (parse-marshal_handshake_init h hid hsig),
)

-- A string of bytes is parsed as a HandshakeResponse exactly when it is the wire form of it and
-- the ciphertext has its size.
pub parse_handshake_response_iff :
    (bs : Bytes) (h : HandshakeResponse)
    → All IsByte bs
    → (parse_handshake_response bs ≡ ok h) ↔ (
        (marshal_handshake_response h ≡ ok bs)
        × (length h.xwing_ciphertext ≡ xwing_ciphertext_size))
parse_handshake_response_iff bs h bytes = (
  marshal-parse_handshake_response bs h bytes,
  λ (e, size).
      parsed _ parse_handshake_response h bs e
        (parse-marshal_handshake_response h size (marshal_handshake_response-IsU16 h bs e)),
)
