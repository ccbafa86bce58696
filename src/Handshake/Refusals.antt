-- ===== src/Handshake/Refusals.antt =====
-- Why a side refuses the message of the other (handshake.go).
use zwing.Base.{
  ◌≡◌, ◌↔◌, refl, sym, Bytes, true, false, Bool, Error, err_inj, Outcome, ok, err, panic, and_then,
  and_then-eq_err, first_failed, next_failed, ciphertext_corrupted, identity_mismatch,
  signature_invalid, if◌then◌else◌,
}
use zwing.Platform.{Platform}
use zwing.Config.{Config}
use zwing.Kem.{Decapsulation, xwing_decapsulate}
use zwing.Identity.{Identity, IdentityPublic, parse_identity_public, verify}
use zwing.Identity.Bounds.{parse_identity_public-ed_pub}
use zwing.Identity.Signature.{IsSigned, verify_iff, verify_err_iff}
use zwing.Aead.{or_error, aead_open}
use zwing.Messages.{
  HandshakeInit, HandshakeResponse, parse_handshake_init, parse_handshake_response,
  split_resp_id_payload,
}
use zwing.Handshake.{
  chacha20_key_size, HandshakeResult, derive, result_of, transcript_hash, is_unexpected, check_pin,
  accept_init, accept_response, hs_label_init, hs_label_response, resp_id_key_label,
  resp_id_nonce_label,
}

if-eq_err :
    (t : Bool) (f e : Error) → (if t then err f else ok (tt {0})) ≡ err e → (t ≡ true) × (e ≡ f)
if-eq_err true f e h = (refl, err_inj (sym h))
if-eq_err false f e h = cc

module _ (P : Platform) where
  -- The last steps of both sides: the identity parses, signed, and passes the pin. Here one fails.
  pub data PeerRefused (cfg : Config P) (label message id_pub sig : Bytes) (e : Error)
      : Type 0 where
    unidentified :
        parse_identity_public P id_pub ≡ err e → PeerRefused cfg label message id_pub sig e
    unsigned :
        (remote : IdentityPublic P)
        → parse_identity_public P id_pub ≡ ok remote
        → ¬ IsSigned P remote label message sig
        → e ≡ signature_invalid
        → PeerRefused cfg label message id_pub sig e
    unexpected :
        (remote : IdentityPublic P)
        → parse_identity_public P id_pub ≡ ok remote
        → IsSigned P remote label message sig
        → is_unexpected P cfg.expected_remote remote ≡ true
        → e ≡ identity_mismatch
        → PeerRefused cfg label message id_pub sig e

  -- Why the responder refuses a frame.
  pub data InitRefused (cfg : Config P) (frame : Bytes) (e : Error) : Type 0 where
    unparsed : parse_handshake_init frame ≡ err e → InitRefused cfg frame e
    peer_refused :
        (init : HandshakeInit)
        → parse_handshake_init frame ≡ ok init
        → PeerRefused cfg hs_label_init init.identity_pub init.identity_pub init.signature e
        → InitRefused cfg frame e

  module _ {A : Type 0} (cfg : Config P) (label message id_pub sig : Bytes)
      (k : IdentityPublic P → A) where
    -- The last steps of both sides.
    abbrev admit : Outcome A
    admit = and_then (parse_identity_public P id_pub) (λ remote.
        and_then (verify P remote label message sig)
          (λ _. and_then (check_pin P cfg.expected_remote remote) (λ _. ok (k remote))))

    admit-err : (e : Error) → admit ≡ err e → PeerRefused cfg label message id_pub sig e
    admit-err e h = elim (and_then-eq_err _ _ h) [
      | first_failed e1 ↦ unidentified e1
      | next_failed remote e1 h1 ↦ elim (and_then-eq_err _ _ h1) [
        | first_failed e2 ↦
            let key = parse_identity_public-ed_pub P id_pub remote e1 in
            let (not_signed, is) = (verify_err_iff P remote label message sig e key).0 e2 in
            unsigned remote e1 not_signed is
        | next_failed u e2 h2 ↦ elim (and_then-eq_err _ _ h2) [
          | first_failed e3 ↦
              let (differs, is) = if-eq_err (is_unexpected P cfg.expected_remote remote) _ e e3 in
              unexpected remote e1 ((verify_iff P remote label message sig).0 e2) differs is
          | next_failed u' e3 h3 ↦ cc
        ]
      ]
    ]

    err-admit : (e : Error) → PeerRefused cfg label message id_pub sig e → admit ≡ err e
    unfolding and_then
    err-admit e (unidentified e1) = rw e1
    err-admit e (unsigned remote e1 not_signed is) =
        let key = parse_identity_public-ed_pub P id_pub remote e1 in
        rw (e1, (verify_err_iff P remote label message sig e key).1 (not_signed, is))
    err-admit e (unexpected remote e1 signed differs is) =
        rw (e1, (verify_iff P remote label message sig).1 signed, differs, is)

  pub accept_init_err_iff :
      (cfg : Config P) (frame : Bytes) (e : Error)
      → (accept_init P cfg frame ≡ err e) ↔ InitRefused cfg frame e
  unfolding accept_init and_then
  accept_init_err_iff cfg frame e = (
    λ h. elim (and_then-eq_err (parse_handshake_init frame) _ h) [
      | first_failed e1 ↦ unparsed e1
      | next_failed init e1 h1 ↦ peer_refused init e1 (
          admit-err cfg hs_label_init init.identity_pub init.identity_pub init.signature
            (λ remote. (init, remote)) e h1)
    ],
    λ r. elim r [
      | unparsed e1 ↦ rw e1
      | peer_refused init e1 r1 ↦ rw e1 (
          err-admit cfg hs_label_init init.identity_pub init.identity_pub init.signature
            (λ remote. (init, remote)) e r1)
    ],
  )

  -- The responder's sealed identity, under the key of a shared secret.
  abbrev pub open_identity : Bytes → HandshakeResponse → Outcome Bytes
  open_identity shared resp =
      aead_open P (derive P shared resp_id_key_label chacha20_key_size) resp_id_nonce_label
        resp.xwing_ciphertext resp.encrypted_id

  -- Why the initiator refuses a frame.
  pub data ResponseRefused (cfg : Config P) (id : Identity P) (id_pub frame : Bytes) (e : Error)
      : Type 0 where
    unparsed_response :
        parse_handshake_response frame ≡ err e → ResponseRefused cfg id id_pub frame e
    not_decapsulated :
        (resp : HandshakeResponse)
        → parse_handshake_response frame ≡ ok resp
        → xwing_decapsulate P id.xwing resp.xwing_ciphertext ≡ err e
        → ResponseRefused cfg id id_pub frame e
    not_opened :
        (resp : HandshakeResponse) (opened : Decapsulation P) (f : Error)
        → parse_handshake_response frame ≡ ok resp
        → xwing_decapsulate P id.xwing resp.xwing_ciphertext ≡ ok opened
        → open_identity opened.shared resp ≡ err f
        → e ≡ ciphertext_corrupted
        → ResponseRefused cfg id id_pub frame e
    not_split :
        (resp : HandshakeResponse) (opened : Decapsulation P) (plaintext : Bytes)
        → parse_handshake_response frame ≡ ok resp
        → xwing_decapsulate P id.xwing resp.xwing_ciphertext ≡ ok opened
        → open_identity opened.shared resp ≡ ok plaintext
        → split_resp_id_payload plaintext ≡ err e
        → ResponseRefused cfg id id_pub frame e
    peer_refused_response :
        (resp : HandshakeResponse) (opened : Decapsulation P) (plaintext remote_id sig : Bytes)
        → parse_handshake_response frame ≡ ok resp
        → xwing_decapsulate P id.xwing resp.xwing_ciphertext ≡ ok opened
        → open_identity opened.shared resp ≡ ok plaintext
        → split_resp_id_payload plaintext ≡ ok (remote_id, sig)
        → PeerRefused cfg hs_label_response
            (transcript_hash P id_pub resp.xwing_ciphertext)
            remote_id
            sig
            e
        → ResponseRefused cfg id id_pub frame e

  -- What the initiator does with the payload that it opened.
  abbrev settle : Config P → Bytes → Bytes → HandshakeResponse → Bytes → Outcome (HandshakeResult P)
  settle cfg id_pub shared resp plaintext = and_then (split_resp_id_payload plaintext) (λ parts.
      admit cfg hs_label_response (transcript_hash P id_pub resp.xwing_ciphertext) parts.0 parts.1
        (result_of P shared))

  or_error-eq_err :
      (e f : Error) (o : Outcome Bytes) → or_error f o ≡ err e → (g : Error) × (o ≡ err g) × (e ≡ f)
  or_error-eq_err e f (ok bs) h = cc
  or_error-eq_err e f (err g) h = (g, refl, err_inj (sym h))
  or_error-eq_err e f (panic p) h = cc

  or_error-eq_ok : (f : Error) (o : Outcome Bytes) (bs : Bytes) → or_error f o ≡ ok bs → o ≡ ok bs
  or_error-eq_ok f (ok b) bs h = h
  or_error-eq_ok f (err g) bs h = cc
  or_error-eq_ok f (panic p) bs h = cc

  pub accept_response_err_iff :
      (cfg : Config P) (id : Identity P) (id_pub frame : Bytes) (e : Error)
      → (accept_response P cfg id id_pub frame ≡ err e) ↔ ResponseRefused cfg id id_pub frame e
  unfolding accept_response and_then
  accept_response_err_iff cfg id id_pub frame e = (
    λ h. elim (and_then-eq_err (parse_handshake_response frame) _ h) [
      | first_failed e1 ↦ unparsed_response e1
      | next_failed resp e1 h1 ↦
          elim (and_then-eq_err (xwing_decapsulate P id.xwing resp.xwing_ciphertext)
            (λ opened.
              and_then (or_error ciphertext_corrupted (open_identity opened.shared resp))
                (settle cfg id_pub opened.shared resp))
            h1) [
              | first_failed e2 ↦ not_decapsulated resp e1 e2
              | next_failed opened e2 h2 ↦
                  elim (and_then-eq_err
                    (or_error ciphertext_corrupted (open_identity opened.shared resp))
                    (settle cfg id_pub opened.shared resp) h2) [
                      | first_failed e3 ↦
                          let (f, e4, is) = or_error-eq_err e ciphertext_corrupted _ e3 in
                          not_opened resp opened f e1 e2 e4 is
                      | next_failed plaintext e3 h3 ↦
                          let e3' = or_error-eq_ok ciphertext_corrupted _ plaintext e3 in
                          elim (and_then-eq_err (split_resp_id_payload plaintext) _ h3) [
                            | first_failed e4 ↦ not_split resp opened plaintext e1 e2 e3' e4
                            | next_failed (remote_id, sig) e4 h4 ↦
                                peer_refused_response resp opened plaintext remote_id sig e1 e2 e3'
                                  e4
                                  (admit-err cfg hs_label_response
                                    (transcript_hash P id_pub resp.xwing_ciphertext) remote_id sig
                                    (result_of P opened.shared) e h4)
                          ]
                    ]
            ]
    ],
    λ r. elim r [
      | unparsed_response e1 ↦ rw e1
      | not_decapsulated resp e1 e2 ↦ rw (e1, e2)
      | not_opened resp opened f e1 e2 e3 is ↦ rw (e1, e2, e3, is)
      | not_split resp opened plaintext e1 e2 e3 e4 ↦ rw (e1, e2, e3, e4)
      | peer_refused_response resp opened plaintext remote_id sig e1 e2 e3 e4 r1 ↦
          rw (e1, e2, e3, e4)
            (err-admit cfg hs_label_response (transcript_hash P id_pub resp.xwing_ciphertext)
              remote_id sig (result_of P opened.shared) e r1)
    ],
  )
