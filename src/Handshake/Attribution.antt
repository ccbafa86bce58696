-- ===== src/Handshake/Attribution.antt =====
-- Whom an accepted response came from (handshake.go): what an identity signs in its runs, and the
-- run that a signature in a response belongs to.
pub mod Response
use zwing.Base.{
  ◌≡◌, refl, sym, ap, ap₂, subst, ◌<◌, ◌^◌, ◌∙◌, arith, Bytes, length, none, ok, ok_inj, Bool-cases,
  inl, inr, ==→eq, ◌==◌,
}
use zwing.Platform.{Platform}
use zwing.Platform.Laws.{KemLaws, EntropyLaws, SignatureLaws}
use zwing.Config.{Config}
use zwing.Kem.{Encapsulation, Decapsulation, xwing_encapsulate, xwing_decapsulate}
use zwing.Kem.Agreement.{decapsulate-encapsulate}
use zwing.Identity.{
  Identity, IdentityPublic, public_of, verify, marshal_identity, parse_identity_public,
  digest_input, identity_digest,
}
use zwing.Identity.Codec.{
  IsSound, public_of-IsSized, length-marshal_identity, parse-marshal_identity,
}
use zwing.Identity.WireForm.{parse_identity_public-size}
use zwing.Identity.Digest.{digest_input_inj}
use zwing.Identity.Signature.{IsSigned, verify_iff}
use zwing.Messages.{HandshakeInit, HandshakeResponse, parse_handshake_response}
use zwing.Handshake.{
  HandshakeResult, accept_init, accept_response, hs_label_init, hs_label_response, result_of,
  transcript_hash, transcript_input, derive, channel_key_label_i2r, channel_key_label_r2i,
  chacha20_key_size,
}
use zwing.Handshake.Authentication.{accept_response-IsAuthentic, accept_init-IsAuthenticInit}
use zwing.Handshake.Transcript.{transcript_input_inj}
use zwing.Base.{some, Option, bind-eq_ok, bind_lift-eq_ok, via, via_lift, pure-eq_ok}
use zwing.Handshake.{respond, run_responder, answer_init}

module _ (P : Platform) where
  -- A run of the responder up to where it signs: the message that it accepted, and the secret that
  -- it encapsulated to the identity in it.
  pub record Answered : Type 0 where
    pub cfg : Config P
    pub frame : Bytes
    pub init : HandshakeInit
    pub remote : IdentityPublic P
    pub accepted : accept_init P cfg frame ≡ ok (init, remote)
    pub w : P.World
    pub w' : P.World
    pub sealed : Encapsulation P
    pub encapsulated : xwing_encapsulate P none remote.xwing_pub w ≡ (ok sealed, w')

  -- What an identity signs: as an initiator its own wire form, as a responder the transcript.
  pub data Signing : Type 0 where
    as_initiator : Signing
    as_responder : Answered → Signing

  abbrev pub label_of : Signing → Bytes
  label_of as_initiator = hs_label_init
  label_of (as_responder a) = hs_label_response

  abbrev pub message_of : Identity P → Signing → Bytes
  message_of id as_initiator = marshal_identity P (public_of P id)
  message_of id (as_responder a) = transcript_hash P a.init.identity_pub a.sealed.ciphertext

  -- No forgery and no collision, where `id` has made the signings of `log` and the initiator looks
  -- at a transcript of `id_pub` and `ct`.
  pub record IsUnforged (log : Signing → Type 0) (id : Identity P) (id_pub ct : Bytes)
      : Type 0 where
    -- a signature over the transcript that verifies is one of the log
    pub made :
        (sig : Bytes)
        → verify P (public_of P id) hs_label_response (transcript_hash P id_pub ct) sig ≡ ok tt
        → (s : Signing) × log s
          × (identity_digest P (label_of s) (message_of id s)
              ≡ identity_digest P hs_label_response (transcript_hash P id_pub ct))
    -- what was signed and the transcript do not collide
    pub digests :
        (s : Signing)
        → log s
        → let this = digest_input hs_label_response (transcript_hash P id_pub ct) in
          P.sha256 (digest_input (label_of s) (message_of id s)) ≡ P.sha256 this
          → digest_input (label_of s) (message_of id s) ≡ this
    pub transcripts :
        (a : Answered)
        → log (as_responder a)
        → transcript_hash P a.init.identity_pub a.sealed.ciphertext ≡ transcript_hash P id_pub ct
        → transcript_input a.init.identity_pub a.sealed.ciphertext ≡ transcript_input id_pub ct

  -- A run of the responder that answered `id_a`, and that holds the keys of a result.
  pub record Attributed (log : Signing → Type 0) (id_a : Identity P) (res : HandshakeResult P)
      : Type 0 where
    pub run : Answered
    pub logged : log (as_responder run)
    pub message : run.init.identity_pub ≡ marshal_identity P (public_of P id_a)
    pub named : run.remote ≡ public_of P id_a
    pub key_i2r : (result_of P run.sealed.shared run.remote).key_i2r ≡ res.key_i2r
    pub key_r2i : (result_of P run.sealed.shared run.remote).key_r2i ≡ res.key_r2i

  respond-Answered :
      (conn : P.RawConn) (cfg : Config P) (id : Option (Identity P)) (w w' : P.World)
      (res : HandshakeResult P)
      → respond P conn cfg id w ≡ (ok res, w')
      → (a : Answered) × (res ≡ result_of P a.sealed.shared a.remote)
  unfolding respond answer_init
  respond-Answered conn cfg none w w' res h = ground arith
  respond-Answered conn cfg (some id) w w' res h = elim (bind-eq_ok _ _ w h) [
    | via frame w1 e1 h1 ↦ elim (bind_lift-eq_ok _ _ w1 h1) [
      | via_lift (init, remote) e2 h2 ↦ elim (bind-eq_ok _ _ w1 h2) [
        | via sealed w2 e3 h3 ↦ elim (bind-eq_ok _ _ w2 h3) [
          | via sig w3 e4 h4 ↦ elim (bind_lift-eq_ok _ _ w3 h4) [
            | via_lift bytes e5 h5 ↦ elim (bind-eq_ok _ _ w3 h5) [
              | via u w4 e6 h6 ↦ (
                record {
                  cfg = cfg;
                  frame = frame;
                  init = init;
                  remote = remote;
                  accepted = e2;
                  w = w1;
                  w' = w2;
                  sealed = sealed;
                  encapsulated = e3;
                },
                sym (pure-eq_ok h6),
              )
            ]
          ]
        ]
      ]
    ]
  ]

  -- The run of a responder that succeeded, and the keys that it holds.
  run_responder-Answered :
      (conn : P.RawConn) (cfg : Config P) (w w' : P.World) (res : HandshakeResult P)
      → run_responder P conn (some cfg) w ≡ (ok res, w')
      → (a : Answered) × (res ≡ result_of P a.sealed.shared a.remote)
  unfolding run_responder
  run_responder-Answered conn cfg w w' res h =
      respond-Answered conn cfg cfg.local_identity w w' res h
