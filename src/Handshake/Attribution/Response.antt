-- ===== src/Handshake/Attribution/Response.antt =====
-- Whom an accepted response came from (handshake.go, runInitiator).
use zwing.Base.{
  ◌≡◌, refl, sym, ap, ap₂, subst, ◌<◌, ◌^◌, ◌∙◌, arith, Bytes, length, none, ok, ok_inj,
}
use zwing.Platform.{Platform}
use zwing.Platform.Laws.{KemLaws, EntropyLaws, SignatureLaws}
use zwing.Config.{Config}
use zwing.Kem.{Decapsulation, xwing_encapsulate, xwing_decapsulate}
use zwing.Kem.Agreement.{decapsulate-encapsulate}
use zwing.Identity.{
  Identity, IdentityPublic, public_of, marshal_identity, parse_identity_public, digest_input,
  identity_digest,
}
use zwing.Identity.Codec.{
  IsSound, public_of-IsSized, length-marshal_identity, parse-marshal_identity,
}
use zwing.Identity.WireForm.{parse_identity_public-size}
use zwing.Identity.Digest.{digest_input_inj}
use zwing.Identity.Signature.{IsSigned, verify_iff}
use zwing.Messages.{HandshakeResponse, parse_handshake_response}
use zwing.Handshake.{
  HandshakeResult, accept_response, hs_label_init, hs_label_response, result_of, transcript_hash,
  derive, channel_key_label_i2r, channel_key_label_r2i, chacha20_key_size,
}
use zwing.Handshake.Authentication.{accept_response-IsAuthentic, accept_init-IsAuthenticInit}
use zwing.Handshake.Transcript.{transcript_input_inj}
use zwing.Handshake.Attribution.{
  Answered, Signing, as_initiator, as_responder, label_of, message_of, IsUnforged, Attributed,
}

module _ (P : Platform) where
  -- A signed digest that is the one of a response's transcript was signed for that transcript.
  as_responder_only :
      (id : Identity P) (s : Signing P) (transcript : Bytes)
      → digest_input (label_of P s) (message_of P id s) ≡ digest_input hs_label_response transcript
      → (a : Answered P) × (s ≡ as_responder a)
        × (transcript_hash P a.init.identity_pub a.sealed.ciphertext ≡ transcript)
  as_responder_only id as_initiator transcript e =
      let (labels, messages) =
        digest_input_inj hs_label_init hs_label_response _ transcript (omega arith) (omega arith)
          e in
      absurd (omega (arith, ap length labels))
  as_responder_only id (as_responder a) transcript e =
      let (labels, messages) =
        digest_input_inj hs_label_response hs_label_response _ transcript (omega arith)
          (omega arith) e in
      (a, refl, messages)

  answered-size : (a : Answered P) → length a.init.identity_pub ≡ 3200
  answered-size a =
      let known = accept_init-IsAuthenticInit P a.cfg a.frame a.init a.remote a.accepted in
      parse_identity_public-size P a.init.identity_pub a.remote known.identified

  -- The run in which a signature over a transcript was made.
  signed_run :
      (log : Signing P → Type 0) (id : Identity P) (id_pub ct sig : Bytes)
      → length id_pub < 2 ^ 32
      → IsUnforged P log id id_pub ct
      → IsSigned P (public_of P id) hs_label_response (transcript_hash P id_pub ct) sig
      → (a : Answered P) × log (as_responder a)
        × (a.init.identity_pub ≡ id_pub)
        × (a.sealed.ciphertext ≡ ct)
  unfolding transcript_hash identity_digest
  signed_run log id id_pub ct sig small unforged signed =
      let transcript = transcript_hash P id_pub ct in
      let (s, logged, digests) =
        unforged.made sig
          ((verify_iff P (public_of P id) hs_label_response transcript sig).1 signed) in
      let (a, is, same) = as_responder_only id s transcript (unforged.digests s logged digests) in
      let its = subst log is logged in
      let (init, cts) =
        transcript_input_inj a.init.identity_pub id_pub a.sealed.ciphertext ct
          (omega (arith, answered-size a)) small (unforged.transcripts a its same) in
      (a, its, init, cts)

  module _ (kem : KemLaws P) (entropy : EntropyLaws P) (signatures : SignatureLaws P) where
    -- A run that answered the wire form of `id_a` encapsulated to `id_a`.
    answered_named :
        (a : Answered P) (id_a : Identity P)
        → IsSound P id_a
        → a.init.identity_pub ≡ marshal_identity P (public_of P id_a)
        → a.remote ≡ public_of P id_a
    answered_named a id_a sound same =
        let known = accept_init-IsAuthenticInit P a.cfg a.frame a.init a.remote a.accepted in
        let sized = public_of-IsSized P kem signatures id_a sound in
        ok_inj (
          sym known.identified
          ∙ ap (parse_identity_public P) same
          ∙ parse-marshal_identity P kem signatures (public_of P id_a) sized)

    answered-shared :
        (a : Answered P) (id_a : Identity P) (opened : Decapsulation P)
        → IsSound P id_a
        → a.remote ≡ public_of P id_a
        → xwing_decapsulate P id_a.xwing a.sealed.ciphertext ≡ ok opened
        → a.sealed.shared ≡ opened.shared
    answered-shared a id_a opened sound named opens =
        let sent =
          ap (λ p. xwing_encapsulate P none p.xwing_pub a.w) (sym named) ∙ a.encapsulated in
        let agree =
          decapsulate-encapsulate P kem id_a.xwing sound.xwing entropy none a.w a.w' a.sealed
            sent in
        sym agree.same_secret ∙ ap (λ d. d.shared) (ok_inj (sym agree.decapsulates ∙ opens))

    -- If the libraries work, a sound initiator accepts a response that names an identity, that
    -- identity has made the signings of a log, a signature of it that verifies over the
    -- transcript of this response is one of the log, and nothing of the log collides with this
    -- transcript under the hash: then a run of the responder in the log answered the initiator's
    -- own identity, encapsulated to it, and holds the same two channel keys.
    pub accept_response-Attributed :
        (log : Signing P → Type 0) (cfg : Config P) (id_a id_b : Identity P) (frame : Bytes)
        (resp : HandshakeResponse) (res : HandshakeResult P)
        → IsSound P id_a
        → accept_response P cfg id_a (marshal_identity P (public_of P id_a)) frame ≡ ok res
        → res.remote ≡ public_of P id_b
        → parse_handshake_response frame ≡ ok resp
        → IsUnforged P log id_b (marshal_identity P (public_of P id_a)) resp.xwing_ciphertext
        → Attributed P log id_a res
    unfolding result_of
    accept_response-Attributed log cfg id_a id_b frame resp res sound accepted names parsed
          unforged =
        let wire = marshal_identity P (public_of P id_a) in
        let seen = accept_response-IsAuthentic P cfg id_a wire frame res accepted in
        let read : seen.resp ≡ resp = ok_inj (sym seen.parsed ∙ parsed) in
        let signed =
          subst
            (λ (p : IdentityPublic P × Bytes).
              IsSigned P p.0 hs_label_response (transcript_hash P wire p.1) seen.signature)
            (ap₂ (λ (p : IdentityPublic P) (r : HandshakeResponse). (p, r.xwing_ciphertext)) names
              read)
            seen.signed in
        let sized =
          length-marshal_identity P kem signatures (public_of P id_a)
            (public_of-IsSized P kem signatures id_a sound) in
        let (run, logged, message, ct) =
          signed_run log id_b wire resp.xwing_ciphertext seen.signature (omega (arith, sized))
            unforged signed in
        let named = answered_named run id_a sound message in
        let opens =
          ap (xwing_decapsulate P id_a.xwing)
            (ct ∙ ap (λ (r : HandshakeResponse). r.xwing_ciphertext) (sym read))
          ∙ seen.decapsulated in
        let shared = answered-shared run id_a seen.opened sound named opens in
        record {
          run = run;
          logged = logged;
          message = message;
          named = named;
          key_i2r =
              ap (λ s. derive P s channel_key_label_i2r chacha20_key_size) shared
              ∙ ap (λ r. r.key_i2r) (sym seen.keys);
          key_r2i =
              ap (λ s. derive P s channel_key_label_r2i chacha20_key_size) shared
              ∙ ap (λ r. r.key_r2i) (sym seen.keys);
        }
