-- ===== src/Messages.antt =====
-- handshake.go: the two messages, the responder's sealed payload, and the reader of slices.
pub mod Bounds
pub mod Reading
pub mod RoundTrip
pub mod Response
pub mod Total
pub mod WireForm
use zwing.Base.{
  ℕ, ◌+◌, ◌%◌, ◌/◌, Bytes, Bool, not, [], ◌∷◌, ◌++◌, length, slice_to, slice_from, get_be,
}
use zwing.Base.{ltb, ◌==◌, if◌then◌else◌, Proc, Outcome, ok, err, panic, and_then}
use zwing.Base.{
  ◌>>=◌, pure, fail, lift, proc_or_nil, short_read, invalid_wire_format, u16_out_of_range,
}
use zwing.Kem.{xwing_ciphertext_size}

pub record HandshakeInit : Type 0 where
  pub identity_pub : Bytes
  pub signature : Bytes

pub record HandshakeResponse : Type 0 where
  pub xwing_ciphertext : Bytes
  pub encrypted_id : Bytes

-- A length that is no uint16 panics.
unfoldable pub append_u16 : Bytes → ℕ → Outcome Bytes
append_u16 b n =
    if ltb 0xFFFF n then panic u16_out_of_range else ok (b ++ (n / 256 % 256 ∷ n % 256 ∷ []))

-- HandshakeInit.MarshalBinary
unfoldable pub marshal_handshake_init : HandshakeInit → Outcome Bytes
marshal_handshake_init h = and_then (append_u16 [] (length h.identity_pub)) (λ out.
    and_then (append_u16 (out ++ h.identity_pub) (length h.signature))
      (λ out'. ok (out' ++ h.signature)))

-- HandshakeResponse.MarshalBinary
unfoldable pub marshal_handshake_response : HandshakeResponse → Outcome Bytes
marshal_handshake_response h =
    and_then (append_u16 h.xwing_ciphertext (length h.encrypted_id))
      (λ out. ok (out ++ h.encrypted_id))

unfoldable pub build_resp_id_payload : Bytes → Bytes → Outcome Bytes
build_resp_id_payload id sig =
    and_then (append_u16 [] (length id))
      (λ out. and_then (append_u16 (out ++ id) (length sig)) (λ out'. ok (out' ++ sig)))

-- A sliceReader is what is left of its buffer.
abbrev pub SliceReader : Type 0
SliceReader = Bytes

-- r.buf[:n], and r.buf = r.buf[n:]
abbrev pub cut : ℕ → Proc SliceReader Bytes
cut n = do
  out ← λ buf. (slice_to buf n, buf)
  rest ← λ buf. (slice_from buf n, buf)
  (λ _. (ok out, rest))

unfoldable pub read_u16 : Proc SliceReader ℕ
read_u16 buf =
    if ltb (length buf) 2 then (err short_read, buf) else (do bs ← cut 2; pure (get_be 0 bs)) buf

unfoldable pub read_n : ℕ → Proc SliceReader Bytes
read_n n buf = if ltb (length buf) n then (err short_read, buf) else cut n buf

-- `if !r.empty() { return nil, ErrInvalidWireFormat }`, then `a`.
unfoldable pub at_end : {A : Type 0} → A → Proc SliceReader A
at_end a buf = if length buf == 0 then (ok a, buf) else (err invalid_wire_format, buf)

read_handshake_init : Proc SliceReader HandshakeInit
read_handshake_init = do
  id_len ← read_u16
  id ← read_n id_len
  sig_len ← read_u16
  sig ← read_n sig_len
  at_end (record { identity_pub = id; signature = sig })

unfoldable pub parse_handshake_init : Bytes → Outcome HandshakeInit
unfolding read_handshake_init
parse_handshake_init bs = (read_handshake_init bs).0

read_resp_id_payload : Proc SliceReader (Bytes × Bytes)
read_resp_id_payload = do
  id_len ← read_u16
  id ← read_n id_len
  sig_len ← read_u16
  sig ← read_n sig_len
  at_end (id, sig)

unfoldable pub split_resp_id_payload : Bytes → Outcome (Bytes × Bytes)
unfolding read_resp_id_payload
split_resp_id_payload bs = (read_resp_id_payload bs).0

-- `encLen, _ := r.readU16()`: a failed read leaves zero.
abbrev or_zero : Outcome ℕ → Outcome ℕ
or_zero (ok n) = ok n
or_zero (err _) = ok 0
or_zero (panic p) = panic p

read_handshake_response : Proc SliceReader HandshakeResponse
read_handshake_response = do
  ct ← proc_or_nil (read_n xwing_ciphertext_size)
  enc_len ← (λ buf. (or_zero (read_u16 buf).0, (read_u16 buf).1))
  enc ← read_n enc_len
  at_end (record { xwing_ciphertext = ct; encrypted_id = enc })

unfoldable pub parse_handshake_response : Bytes → Outcome HandshakeResponse
unfolding read_handshake_response
parse_handshake_response bs =
    if ltb (length bs) (xwing_ciphertext_size + 2)
    then err invalid_wire_format
    else (read_handshake_response bs).0
