-- ===== src/Sample/Frames.antt =====
-- The theorems on frames and on messages, at small inputs.
use zwing.Base.{◌↔◌, ◌≡◌, arith, true, false, [], ◌∷◌, ◌++◌, Bytes, ok, zeros}
use zwing.Base.{ℕ, zero, suc, replicate, All, IsByte, All-append, length}
use zwing.Wire.{read_frame}
use zwing.Wire.Frames.{frame, IsPayload, read_frame_lem, read_frame-IsPayload}
use zwing.Messages.{HandshakeInit, HandshakeResponse, marshal_handshake_init, parse_handshake_init}
use zwing.Messages.{
  build_resp_id_payload, split_resp_id_payload, marshal_handshake_response,
  parse_handshake_response,
}
use zwing.Messages.WireForm.{
  split_resp_id_payload_iff, parse_handshake_init_iff, parse_handshake_response_iff,
}
use zwing.Kem.{xwing_ciphertext_size}
use zwing.Sample.Machine.{State, start, machine}
use zwing.Sample.Lawful.{sample_duplex, sample_exact, pending-to_true}

abbrev three : Bytes
three = 1 ∷ 2 ∷ 3 ∷ []

abbrev framed : State
framed = record start { to_true = frame three ++ (9 ∷ []) }

framed_read :
    (w' : State) × (read_frame machine true framed ≡ (ok three, w'))
    × (sample_duplex.backward.pending w' ≡ 9 ∷ [])
framed_read =
    read_frame_lem machine false true sample_duplex.backward three (9 ∷ []) framed
      (omega arith, omega arith) (pending-to_true (frame three ++ (9 ∷ [])))

read_frame-IsPayload_example : IsPayload three
read_frame-IsPayload_example = read_frame-IsPayload machine true framed sample_exact framed_read.1

-- Messages.
abbrev small_init : HandshakeInit
small_init = record { identity_pub = three; signature = 4 ∷ [] }

abbrev small_bytes : Bytes
small_bytes = 0 ∷ 3 ∷ 1 ∷ 2 ∷ 3 ∷ 0 ∷ 1 ∷ 4 ∷ []

small_bytes-IsByte : All IsByte small_bytes
small_bytes-IsByte = ground arith

abbrev small_response : HandshakeResponse
small_response = record { xwing_ciphertext = zeros 1120; encrypted_id = three }

abbrev response_bytes : Bytes
response_bytes = zeros 1120 ++ (0 ∷ 3 ∷ three)

zeros-IsByte : (n : ℕ) → All IsByte (zeros n)
unfolding zeros replicate
zeros-IsByte zero = tt
zeros-IsByte (suc n) = (omega arith, zeros-IsByte n)

split_resp_id_payload_iff_example :
    (split_resp_id_payload small_bytes ≡ ok (three, 4 ∷ []))
    ↔ (build_resp_id_payload three (4 ∷ []) ≡ ok small_bytes)
split_resp_id_payload_iff_example =
    split_resp_id_payload_iff small_bytes three (4 ∷ []) small_bytes-IsByte

parse_handshake_init_iff_example :
    (parse_handshake_init small_bytes ≡ ok small_init)
    ↔ (marshal_handshake_init small_init ≡ ok small_bytes)
parse_handshake_init_iff_example =
    parse_handshake_init_iff small_bytes small_init small_bytes-IsByte

parse_handshake_response_iff_example :
    (parse_handshake_response response_bytes ≡ ok small_response) ↔ (
      (marshal_handshake_response small_response ≡ ok response_bytes)
      × (length small_response.xwing_ciphertext ≡ xwing_ciphertext_size))
parse_handshake_response_iff_example =
    parse_handshake_response_iff response_bytes small_response
      (All-append IsByte (zeros 1120) _ (zeros-IsByte 1120) (ground arith))
