-- ===== src/Handshake.antt =====
-- handshake.go: the two sides of the handshake. Each is cut where it waits for the other: what
-- comes after a frame was read is a pure function of that frame, up to the responder's answer.
pub mod Transcript
pub mod Authentication
pub mod Refusals
pub mod Failures
pub mod Attribution
pub mod Responding
pub mod Runs
pub mod Total
pub mod Agreement
use zwing.Base.{ℕ, ◌%◌, ◌^◌, Bytes, Bool, true, false, not, ◌&&◌, Option, none, some, ◌++◌}
use zwing.Base.{length, copy_into, zeros, put_be, ascii, if◌then◌else◌}
use zwing.Base.{Proc, Outcome, ok, err, and_then, ◌>>=◌, ◌>>◌, pure, fail, lift}
use zwing.Base.{config_missing_id, ciphertext_corrupted, identity_mismatch}
use zwing.Platform.{Platform}
use zwing.Config.{Config}
use zwing.Wire.{write_frame, read_frame}
use zwing.Kem.{Decapsulation, Encapsulation, xwing_encapsulate, xwing_decapsulate}
use zwing.Identity.{Identity, IdentityPublic, public_of, sign, verify}
use zwing.Identity.{marshal_identity, parse_identity_public, identity_equal}
use zwing.Aead.{or_error, aead_seal, aead_open}
use zwing.Messages.{
  HandshakeInit, HandshakeResponse, marshal_handshake_init, marshal_handshake_response,
}
use zwing.Messages.{parse_handshake_init, parse_handshake_response}
use zwing.Messages.{build_resp_id_payload, split_resp_id_payload}

abbrev pub hs_label_init : Bytes
hs_label_init = ascii "lux.zwing.v1/handshake-init"

abbrev pub hs_label_response : Bytes
hs_label_response = ascii "lux.zwing.v1/handshake-response"

abbrev pub channel_key_label_i2r : Bytes
channel_key_label_i2r = ascii "lux.zwing.v1/i2r"

abbrev pub channel_key_label_r2i : Bytes
channel_key_label_r2i = ascii "lux.zwing.v1/r2i"

abbrev pub chacha20_key_size : ℕ
chacha20_key_size = 32

-- The key and nonce labels of the responder's sealed identity.
abbrev pub resp_id_key_label : Bytes
resp_id_key_label = ascii "lux.zwing.v1/resp-id"

abbrev pub resp_id_nonce_label : Bytes
resp_id_nonce_label = ascii "zwing-resp-id"

-- What transcriptHash hashes.
unfoldable pub transcript_input : Bytes → Bytes → Bytes
transcript_input init_pub ct =
    ascii "lux.zwing.v1/transcript"
    ++ (put_be 4 (length init_pub % 2 ^ 32) ++ (init_pub ++ (put_be 4 (length ct % 2 ^ 32) ++ ct)))

module _ (P : Platform) where
  pub record HandshakeResult : Type 0 where
    pub shared : Bytes
    pub remote : IdentityPublic P
    pub key_i2r : Bytes
    pub key_r2i : Bytes

  -- A buffer of `size` zeros, filled from the key stream.
  unfoldable pub derive : Bytes → Bytes → ℕ → Bytes
  derive secret label size = copy_into (zeros size) (P.hkdf_sha256 secret label size)

  unfoldable pub transcript_hash : Bytes → Bytes → Bytes
  transcript_hash init_pub ct = P.sha256 (transcript_input init_pub ct)

  -- The end of both sides: the two channel keys.
  unfoldable pub result_of : Bytes → IdentityPublic P → HandshakeResult
  result_of shared remote = record {
    shared = shared;
    remote = remote;
    key_i2r = derive shared channel_key_label_i2r chacha20_key_size;
    key_r2i = derive shared channel_key_label_r2i chacha20_key_size;
  }

  -- `cfg.ExpectedRemote != nil && !remote.Equal(cfg.ExpectedRemote)`
  abbrev pub is_unexpected : Option (IdentityPublic P) → IdentityPublic P → Bool
  is_unexpected none remote = false
  is_unexpected (some expected) remote = not (identity_equal P (some remote) (some expected))

  abbrev pub check_pin : Option (IdentityPublic P) → IdentityPublic P → Outcome (Unit {0})
  check_pin expected remote = if is_unexpected expected remote then err identity_mismatch else ok tt

  -- runInitiator, step 1: what it returns is the identity that it sent.
  unfoldable pub send_init : P.RawConn → Identity P → Proc P.World Bytes
  send_init conn id = do
    let id_pub = marshal_identity P (public_of P id)
    sig ← sign P id hs_label_init id_pub
    frame ← lift (marshal_handshake_init (record { identity_pub = id_pub; signature = sig }))
    write_frame P.host conn frame
    pure id_pub

  -- runInitiator, from step 2's parse on.
  unfoldable pub accept_response : Config P → Identity P → Bytes → Bytes → Outcome HandshakeResult
  accept_response cfg id id_pub frame = and_then (parse_handshake_response frame) (λ resp.
      and_then (xwing_decapsulate P id.xwing resp.xwing_ciphertext) (λ opened.
        let id_key = derive opened.shared resp_id_key_label chacha20_key_size in
        and_then
          (or_error ciphertext_corrupted
            (aead_open P id_key resp_id_nonce_label resp.xwing_ciphertext resp.encrypted_id))
          (λ plaintext. and_then (split_resp_id_payload plaintext) (λ parts.
            and_then (parse_identity_public P parts.0) (λ remote.
              let transcript = transcript_hash id_pub resp.xwing_ciphertext in
              and_then (verify P remote hs_label_response transcript parts.1) (λ _.
                and_then (check_pin cfg.expected_remote remote)
                  (λ _. ok (result_of opened.shared remote))))))))

  -- runInitiator, from step 2 on.
  unfoldable pub await_response :
      P.RawConn → Config P → Identity P → Bytes → Proc P.World HandshakeResult
  await_response conn cfg id id_pub = do
    frame ← read_frame P.host conn
    lift (accept_response cfg id id_pub frame)

  unfoldable pub initiate :
      P.RawConn → Config P → Option (Identity P) → Proc P.World HandshakeResult
  initiate conn cfg none = fail config_missing_id
  initiate conn cfg (some id) = do id_pub ← send_init conn id; await_response conn cfg id id_pub

  unfoldable pub run_initiator : P.RawConn → Option (Config P) → Proc P.World HandshakeResult
  unfolding initiate
  run_initiator conn none = fail config_missing_id
  run_initiator conn (some cfg) = initiate conn cfg cfg.local_identity

  -- runResponder, step 1 from the parse on: the message and whom it came from.
  unfoldable pub accept_init : Config P → Bytes → Outcome (HandshakeInit × IdentityPublic P)
  accept_init cfg frame = and_then (parse_handshake_init frame) (λ init.
      and_then (parse_identity_public P init.identity_pub) (λ remote.
        and_then (verify P remote hs_label_init init.identity_pub init.signature)
          (λ _. and_then (check_pin cfg.expected_remote remote) (λ _. ok (init, remote)))))

  -- runResponder, step 3: the frame that answers.
  unfoldable pub seal_response : Bytes → Bytes → Bytes → Bytes → Outcome Bytes
  seal_response shared ct id_pub sig = and_then (build_resp_id_payload id_pub sig) (λ plaintext.
      let id_key = derive shared resp_id_key_label chacha20_key_size in
      and_then (aead_seal P id_key resp_id_nonce_label ct plaintext) (λ sealed.
        marshal_handshake_response (record { xwing_ciphertext = ct; encrypted_id = sealed })))

  -- runResponder, from step 2 on.
  unfoldable pub answer_init :
      P.RawConn → Identity P → HandshakeInit → IdentityPublic P → Proc P.World HandshakeResult
  answer_init conn id init remote = do
    sealed ← xwing_encapsulate P none remote.xwing_pub
    let id_pub = marshal_identity P (public_of P id)
    let transcript = transcript_hash init.identity_pub sealed.ciphertext
    sig ← sign P id hs_label_response transcript
    frame ← lift (seal_response sealed.shared sealed.ciphertext id_pub sig)
    write_frame P.host conn frame
    pure (result_of sealed.shared remote)

  unfoldable pub respond : P.RawConn → Config P → Option (Identity P) → Proc P.World HandshakeResult
  respond conn cfg none = fail config_missing_id
  respond conn cfg (some id) = do
    frame ← read_frame P.host conn
    (init, remote) ← lift (accept_init cfg frame)
    answer_init conn id init remote

  unfoldable pub run_responder : P.RawConn → Option (Config P) → Proc P.World HandshakeResult
  unfolding respond
  run_responder conn none = fail config_missing_id
  run_responder conn (some cfg) = respond conn cfg cfg.local_identity
