-- ===== src/Handshake/Agreement/Steps.antt =====
-- The steps of an honest handshake, each with what it returns and what it puts on the connection.
use zwing.Base.{ℕ, ◌^◌, ◌≤◌, ◌≡◌, sym, ap, ◌∙◌, ◌++◌, arith, Bytes, length, length-append}
use zwing.Base.{ok, and_then, bind_ok, bind_lift_ok}
use zwing.Base.{zeros, length-copy_into, length-zeros}
use zwing.Platform.{Platform}
use zwing.Platform.Laws.{KemLaws, SignatureLaws, IsSupplied}
use zwing.Platform.Duplex.{Duplex}
use zwing.Config.{Config}
use zwing.Wire.Frames.{frame, write_frame_lem}
use zwing.Identity.{Identity, public_of, verify, marshal_identity}
use zwing.Identity.Codec.{
  IsSound, public_of-IsSized, length-marshal_identity, parse-marshal_identity,
}
use zwing.Identity.Signature.{verify-sign}
use zwing.Messages.{HandshakeInit}
use zwing.Messages.Reading.{field}
use zwing.Messages.RoundTrip.{marshal_handshake_init_ok, parse-marshal_handshake_init}
use zwing.Handshake.{derive, check_pin, send_init, accept_init}
use zwing.Handshake.{hs_label_init}
use zwing.Wire.Calm.{write_frame-Keeps}
use zwing.Handshake.Agreement.Calm.{sign-Keeps}

module _ (P : Platform) where
  abbrev pub wire_id : Identity P → Bytes
  wire_id id = marshal_identity P (public_of P id)

  pub length-derive : (secret label : Bytes) (n : ℕ) → length (derive P secret label n) ≡ n
  unfolding derive
  length-derive secret label n = length-copy_into (zeros n) _ ∙ length-zeros n

  module _ (kem : KemLaws P) (signatures : SignatureLaws P) where
    pub length-wire_id : (id : Identity P) → IsSound P id → length (wire_id id) ≡ 3200
    length-wire_id id s =
        length-marshal_identity P kem signatures _ (public_of-IsSized P kem signatures id s)

    -- The initiator's message goes out whole, and what is on its way to it stays.
    pub send_init_lem :
        (sup : IsSupplied P) (a b : P.RawConn) (duplex : Duplex P a b) (id : Identity P)
        (w : P.World)
        → IsSound P id
        → (sig : Bytes) × (w' : P.World) × (send_init P a id w ≡ (ok (wire_id id), w'))
          × (length sig ≡ 3373)
          × (verify P (public_of P id) hs_label_init (wire_id id) sig ≡ ok tt)
          × (duplex.forward.pending w'
              ≡ duplex.forward.pending w ++ frame (field (wire_id id) ++ field sig))
          × (duplex.backward.pending w' ≡ duplex.backward.pending w)
    unfolding send_init
    send_init_lem sup a b duplex id w sound =
        let id_pub = wire_id id in
        let hid = length-wire_id id sound in
        let (sig, w1, e1, hsig, v) = verify-sign P signatures sup id hs_label_init id_pub w sound in
        let h : HandshakeInit = record { identity_pub = id_pub; signature = sig } in
        let bytes = field id_pub ++ field sig in
        let made = marshal_handshake_init_ok h (omega arith) (omega arith) in
        let fits : length bytes ≤ 2 ^ 20 =
          omega (arith, length-append (field id_pub) (field sig)) in
        let (w2, e2, p2) = write_frame_lem P.host a b duplex.forward bytes w1 fits in
        let calm_ab =
          (sign-Keeps P duplex.forward.pending duplex.sign_forward id hs_label_init id_pub).at w in
        let calm_ba =
          (sign-Keeps P duplex.backward.pending duplex.sign_backward id hs_label_init id_pub).at
            w in
        let calm_w =
          (write_frame-Keeps P.host a duplex.backward.pending duplex.write_forward bytes).at w1 in
        (
          sig,
          w2,
          bind_ok _ _ w e1 ∙ bind_lift_ok _ _ w1 made ∙ bind_ok _ _ w1 e2,
          hsig,
          v,
          p2 ∙ ap (λ s. s ++ frame bytes) (ap (λ p. duplex.forward.pending p.1) (sym e1) ∙ calm_ab),
          ap (λ p. duplex.backward.pending p.1) (sym e2)
              ∙ calm_w
              ∙ ap (λ p. duplex.backward.pending p.1) (sym e1)
              ∙ calm_ba,
        )

    -- The responder takes it, and knows the initiator.
    pub accept_init_lem :
        (cfg : Config P) (id : Identity P) (sig : Bytes)
        → IsSound P id
        → length sig ≡ 3373
        → verify P (public_of P id) hs_label_init (wire_id id) sig ≡ ok tt
        → check_pin P cfg.expected_remote (public_of P id) ≡ ok tt
        → accept_init P cfg (field (wire_id id) ++ field sig)
          ≡ ok (record { identity_pub = wire_id id; signature = sig }, public_of P id)
    unfolding accept_init and_then
    accept_init_lem cfg id sig sound hsig v pin =
        let hid = length-wire_id id sound in
        let h : HandshakeInit = record { identity_pub = wire_id id; signature = sig } in
        let made = marshal_handshake_init_ok h (omega arith) (omega arith) in
        let parsed = rw made at (parse-marshal_handshake_init h (omega arith) (omega arith)) in
        let known =
          parse-marshal_identity P kem signatures _ (public_of-IsSized P kem signatures id sound) in
        rw (parsed, known, v, pin)
