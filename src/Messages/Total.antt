-- ===== src/Messages/Total.antt =====
-- Panics of the parsers (handshake.go).
use zwing.Base.{ℕ, Bytes, arith}
use zwing.Base.Returns.{IsReturn, Returns, returns_rules, IsReturn-if, IsReturn-err}
use zwing.Messages.Bounds.{read_n_eq, read_u16_eq}
use zwing.Messages.{
  read_u16, read_n, at_end, read_handshake_init, parse_handshake_init, read_resp_id_payload,
  split_resp_id_payload, read_handshake_response, parse_handshake_response, or_zero,
}

read_u16-Returns : Returns read_u16
read_u16-Returns = record { at = λ buf. record { never = λ p h. ground (arith, read_u16_eq buf) } }

read_n-Returns : (n : ℕ) → Returns (read_n n)
read_n-Returns n = record { at = λ buf. record { never = λ p h. ground (arith, read_n_eq n buf) } }

at_end-Returns : {A : Type 0} (a : A) → Returns (at_end a)
unfolding at_end
at_end-Returns a = record { at = λ buf. record { never = λ p h. ground arith } }

read_two_bytes-Returns : Returns (λ buf. (or_zero (read_u16 buf).0, (read_u16 buf).1))
read_two_bytes-Returns = record {
  at = λ buf. record { never = λ p h. ground (arith, read_u16_eq buf) };
}

read_handshake_init-Returns : Returns read_handshake_init
unfolding read_handshake_init
read_handshake_init-Returns =
    search (returns_rules, read_u16-Returns, read_n-Returns, at_end-Returns)

read_resp_id_payload-Returns : Returns read_resp_id_payload
unfolding read_resp_id_payload
read_resp_id_payload-Returns =
    search (returns_rules, read_u16-Returns, read_n-Returns, at_end-Returns)

read_handshake_response-Returns : Returns read_handshake_response
unfolding read_handshake_response
read_handshake_response-Returns =
    search (returns_rules, read_two_bytes-Returns, read_n-Returns, at_end-Returns)

pub parse_handshake_init-IsReturn : (bs : Bytes) → IsReturn (parse_handshake_init bs)
unfolding parse_handshake_init
parse_handshake_init-IsReturn bs = read_handshake_init-Returns.at bs

pub split_resp_id_payload-IsReturn : (bs : Bytes) → IsReturn (split_resp_id_payload bs)
unfolding split_resp_id_payload
split_resp_id_payload-IsReturn bs = read_resp_id_payload-Returns.at bs

pub parse_handshake_response-IsReturn : (bs : Bytes) → IsReturn (parse_handshake_response bs)
unfolding parse_handshake_response
parse_handshake_response-IsReturn bs =
    IsReturn-if _ _ _ (IsReturn-err _) (read_handshake_response-Returns.at bs)
