-- ===== src/Handshake/Authentication.antt =====
-- What either side has checked when it accepts the other.
use zwing.Base.{◌≡◌, refl, subst, arith, Bytes, false, Option, none, some}
use zwing.Base.{Error, panic, Outcome, ok, err, and_then-eq_ok, via_ok, ok_inj}
use zwing.Platform.{Platform}
use zwing.Config.{Config}
use zwing.Kem.{Decapsulation, xwing_decapsulate}
use zwing.Identity.{Identity, IdentityPublic, parse_identity_public}
use zwing.Identity.Signature.{IsSigned, verify-IsSigned}
use zwing.Messages.{
  HandshakeInit, HandshakeResponse, parse_handshake_init, parse_handshake_response,
}
use zwing.Handshake.{HandshakeResult, transcript_hash, result_of, is_unexpected, check_pin}
use zwing.Aead.{or_error}
use zwing.Handshake.{hs_label_init, hs_label_response, accept_response, accept_init}

module _ (P : Platform) where
  -- The response that an initiator accepted: its shared secret is the one that the initiator's key
  -- decapsulates, and the remote identity signed the transcript with both of its keys.
  pub record IsAuthentic (cfg : Config P) (id : Identity P) (id_pub frame : Bytes)
      (res : HandshakeResult P) : Type 0 where
    pub resp : HandshakeResponse
    pub opened : Decapsulation P
    pub remote_id : Bytes
    pub signature : Bytes
    pub parsed : parse_handshake_response frame ≡ ok resp
    pub decapsulated : xwing_decapsulate P id.xwing resp.xwing_ciphertext ≡ ok opened
    pub identified : parse_identity_public P remote_id ≡ ok res.remote
    pub signed :
        IsSigned P res.remote hs_label_response
          (transcript_hash P id_pub resp.xwing_ciphertext)
          signature
    pub expected : is_unexpected P cfg.expected_remote res.remote ≡ false
    pub keys : res ≡ result_of P opened.shared res.remote

  check_pin-eq_ok :
      (expected : Option (IdentityPublic P)) (remote : IdentityPublic P) {u : Unit {0}}
      → check_pin P expected remote ≡ ok u
      → is_unexpected P expected remote ≡ false
  check_pin-eq_ok none remote h = refl
  check_pin-eq_ok (some e) remote h = ground arith

  or_error-eq_ok : (e : Error) (m : Outcome Bytes) {a : Bytes} → or_error e m ≡ ok a → m ≡ ok a
  or_error-eq_ok e (ok b) h = h
  or_error-eq_ok e (err x) h = cc
  or_error-eq_ok e (panic x) h = cc

  -- An initiator that accepts a response has checked all of `IsAuthentic`.
  pub accept_response-IsAuthentic :
      (cfg : Config P) (id : Identity P) (id_pub frame : Bytes) (res : HandshakeResult P)
      → accept_response P cfg id id_pub frame ≡ ok res
      → IsAuthentic cfg id id_pub frame res
  unfolding accept_response
  accept_response-IsAuthentic cfg id id_pub frame res h = elim (and_then-eq_ok _ _ h) [
    | via_ok resp e1 h1 ↦ elim (and_then-eq_ok _ _ h1) [
      | via_ok opened e2 h2 ↦ elim (and_then-eq_ok _ _ h2) [
        | via_ok plaintext e3 h3 ↦ elim (and_then-eq_ok _ _ h3) [
          | via_ok parts e4 h4 ↦ elim (and_then-eq_ok _ _ h4) [
            | via_ok remote e5 h5 ↦ elim (and_then-eq_ok _ _ h5) [
              | via_ok u e6 h6 ↦ elim (and_then-eq_ok _ _ h6) [
                | via_ok u' e7 h7 ↦ subst (IsAuthentic cfg id id_pub frame) (ok_inj h7) (record {
                  resp = resp;
                  opened = opened;
                  remote_id = parts.0;
                  signature = parts.1;
                  parsed = e1;
                  decapsulated = e2;
                  identified = unfold result_of in e5;
                  signed = unfold result_of in verify-IsSigned P remote _ _ _ e6;
                  expected = unfold result_of in check_pin-eq_ok cfg.expected_remote remote e7;
                  keys = unfold result_of in refl;
                })
              ]
            ]
          ]
        ]
      ]
    ]
  ]

  -- A responder that accepts an initiator: the identity in the message signed it with both keys.
  pub record IsAuthenticInit (cfg : Config P) (frame : Bytes) (init : HandshakeInit)
      (remote : IdentityPublic P) : Type 0 where
    pub parsed : parse_handshake_init frame ≡ ok init
    pub identified : parse_identity_public P init.identity_pub ≡ ok remote
    pub signed : IsSigned P remote hs_label_init init.identity_pub init.signature
    pub expected : is_unexpected P cfg.expected_remote remote ≡ false

  pub accept_init-IsAuthenticInit :
      (cfg : Config P) (frame : Bytes) (init : HandshakeInit) (remote : IdentityPublic P)
      → accept_init P cfg frame ≡ ok (init, remote)
      → IsAuthenticInit cfg frame init remote
  unfolding accept_init
  accept_init-IsAuthenticInit cfg frame init remote h = elim (and_then-eq_ok _ _ h) [
    | via_ok init' e1 h1 ↦ elim (and_then-eq_ok _ _ h1) [
      | via_ok remote' e2 h2 ↦ elim (and_then-eq_ok _ _ h2) [
        | via_ok u e3 h3 ↦ elim (and_then-eq_ok _ _ h3) [
          | via_ok u' e4 h4 ↦
              subst (λ (p : HandshakeInit × IdentityPublic P). IsAuthenticInit cfg frame p.0 p.1)
                (ok_inj h4)
                (record {
                  parsed = e1;
                  identified = e2;
                  signed = verify-IsSigned P remote' _ _ _ e3;
                  expected = check_pin-eq_ok cfg.expected_remote remote' e4;
                })
        ]
      ]
    ]
  ]
