-- ===== src/Aead/Nonces.antt =====
-- channel.go's nonceFor and handshakeNonce: the length of nonces, when two are the same, and
-- the round trip of aeadSeal and aeadOpen.
use zwing.Base.{and_then, ℕ, ◌+◌, ◌^◌, ◌<◌, ◌≡◌, refl, Bytes, length, append_inj}
use zwing.Base.{zeros, put_be_inj, ok}
use zwing.Base.{eq→==}
use zwing.Platform.{Platform}
use zwing.Platform.Laws.{AeadLaws}
use zwing.Aead.{nonce_for, handshake_nonce, must_chacha20, aead_seal, aead_open}

-- Two 64-bit sequence numbers with one nonce are the same number.
pub nonce_for_inj : (a b : ℕ) → a < 2 ^ 64 → b < 2 ^ 64 → nonce_for a ≡ nonce_for b → a ≡ b
unfolding nonce_for
nonce_for_inj a b ha hb e = put_be_inj 8 a b ha hb (append_inj (zeros 4) (zeros 4) _ _ refl e).1

module _ (P : Platform) (aead : AeadLaws P) where
  -- What aeadSeal seals under a key of 32 bytes, 16 bytes longer than the text, aeadOpen opens to
  -- the text under the same key, nonce label and associated data, if the libraries work.
  pub aead_open-aead_seal :
      (key label aad text : Bytes)
      → length key ≡ 32
      → (sealed : Bytes) × (aead_seal P key label aad text ≡ ok sealed)
        × (aead_open P key label aad sealed ≡ ok text)
        × (length sealed ≡ length text + 16)
  unfolding aead_seal aead_open must_chacha20 and_then
  aead_open-aead_seal key label aad text h =
      let a = P.chacha_new key in
      let nonce = handshake_nonce label in
      (
        P.aead_seal a nonce text aad,
        rw (eq→== _ _ h),
        rw (eq→== _ _ h, aead.open-seal a nonce text aad),
        aead.seal_length a nonce text aad,
      )
