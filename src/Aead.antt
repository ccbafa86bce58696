-- ===== src/Aead.antt =====
-- channel.go: the ChaCha20-Poly1305 helpers, which the handshake and the channel share.
pub mod Nonces
use zwing.Base.{ℕ, Bytes, ◌++◌, length, copy_into, zeros, put_be, ◌==◌, if◌then◌else◌}
use zwing.Base.{
  Option, none, some, Error, Outcome, ok, err, panic, and_then, chacha_key_size,
  handshake_aead_open_failed,
}
use zwing.Platform
use zwing.Platform.{Platform}

abbrev pub nonce_size : ℕ
nonce_size = 12

-- Twelve bytes: four zeros and the counter.
unfoldable pub nonce_for : ℕ → Bytes
nonce_for seq = zeros 4 ++ put_be 8 seq

unfoldable pub handshake_nonce : Bytes → Bytes
handshake_nonce label = copy_into (zeros nonce_size) label

-- `if err != nil { return nil, e }`
abbrev pub or_error {ℓ} : {A : Type ℓ} → Error → Outcome A → Outcome A
or_error e (ok a) = ok a
or_error e (err _) = err e
or_error e (panic p) = panic p

-- `if err != nil { return nil, e }`, for a call whose own error is not read
abbrev pub or_else {ℓ} : {A : Type ℓ} → Option A → Error → Outcome A
or_else (some a) e = ok a
or_else none e = err e

module _ (P : Platform) where
  unfoldable pub must_chacha20 : Bytes → Outcome P.Aead
  must_chacha20 key =
      if length key == Platform.chacha_key_size
      then ok (P.chacha_new key)
      else panic chacha_key_size

  unfoldable pub aead_seal : Bytes → Bytes → Bytes → Bytes → Outcome Bytes
  aead_seal key nonce_label aad plaintext =
      and_then (must_chacha20 key)
        (λ aead. ok (P.aead_seal aead (handshake_nonce nonce_label) plaintext aad))

  unfoldable pub aead_open : Bytes → Bytes → Bytes → Bytes → Outcome Bytes
  aead_open key nonce_label aad ciphertext = and_then (must_chacha20 key) (λ aead.
      or_else (P.aead_open aead (handshake_nonce nonce_label) ciphertext aad)
        handshake_aead_open_failed)
