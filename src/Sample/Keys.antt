-- ===== src/Sample/Keys.antt =====
-- The theorems on keys, encapsulations, identities and signatures, at a sample identity.
use zwing.Base.{
  ◌≡◌, ◌↔◌, refl, true, none, some, [], ◌∷◌, Bytes, ok, length, ◌>>=◌, copy_into, take, drop,
  replicate, zeros,
}
use zwing.Kem.{Encapsulation, xwing_public, xwing_encapsulate}
use zwing.Kem.{generate_xwing_key}
use zwing.Kem.Keys.{IsKeyPair}
use zwing.Kem.Agreement.{Agree, decapsulate-encapsulate, encapsulate_total}
use zwing.Identity.{
  Identity, public_of, sign, verify, signature_size, marshal_identity, parse_identity_public,
}
use zwing.Identity.{identity_equal, generate_identity, generate_identity_from}
use zwing.Identity.Codec.{IsSound, IsSized, public_of-IsSized, identity_equal_iff}
use zwing.Identity.Codec.{generate_identity_from-IsSound}
use zwing.Identity.Signature.{IsSigned, verify_iff, verify-sign}
use zwing.Sample.Primitives.{tagged, multiply, one, padded}
use zwing.Sample.Machine.{State, start, sample}
use zwing.Identity.WireForm.{parse_identity_public_iff}
use zwing.Sample.Lawful.{sample_laws, sample_encoding}
use zwing.Sample.Handshakes.{alice, bob, alice-IsSound, bob-IsSound}

abbrev pair : IsKeyPair sample alice.xwing
pair = alice-IsSound.xwing

encapsulates :
    (e : Encapsulation sample) × (w' : State) × (xwing_encapsulate sample none
        (xwing_public sample alice.xwing)
        start
      ≡ (ok e, w'))
encapsulates =
    encapsulate_total sample sample_laws.kem alice.xwing pair sample_laws.entropy
      sample_laws.supplied none start

-- The encapsulation that the next is about.
made :
    (e : Encapsulation sample) × (w' : State) × (xwing_encapsulate sample none
        (xwing_public sample alice.xwing)
        start
      ≡ (ok e, w'))
made =
    encapsulate_total sample sample_laws.kem alice.xwing pair sample_laws.entropy
      sample_laws.supplied none start

decapsulate-encapsulate_example : Agree sample alice.xwing made.0
decapsulate-encapsulate_example =
    decapsulate-encapsulate sample sample_laws.kem alice.xwing pair sample_laws.entropy none start
      made.1 made.0 made.2

abbrev greeting : Bytes
greeting = 104 ∷ 105 ∷ []

signed :
    (sig : Bytes) × (w' : State) × (sign sample alice [] greeting start ≡ (ok sig, w'))
    × (length sig ≡ signature_size)
    × (verify sample (public_of sample alice) [] greeting sig ≡ ok tt)
signed =
    verify-sign sample sample_laws.signatures sample_laws.supplied alice [] greeting start
      alice-IsSound

verify-sign_example :
    (sig : Bytes) × (w' : State) × (sign sample alice [] greeting start ≡ (ok sig, w'))
    × (length sig ≡ signature_size)
    × (verify sample (public_of sample alice) [] greeting sig ≡ ok tt)
verify-sign_example =
    verify-sign sample sample_laws.signatures sample_laws.supplied alice [] greeting start
      alice-IsSound

verify_iff_example :
    (verify sample (public_of sample alice) [] greeting signed.0 ≡ ok tt)
    ↔ IsSigned sample (public_of sample alice) [] greeting signed.0
verify_iff_example = verify_iff sample (public_of sample alice) [] greeting signed.0

parse_identity_public_iff_example :
    (parse_identity_public sample (marshal_identity sample (public_of sample alice))
      ≡ ok (public_of sample alice))
    ↔ (IsSized sample (public_of sample alice)
        × (marshal_identity sample (public_of sample alice)
            ≡ marshal_identity sample (public_of sample alice)))
parse_identity_public_iff_example =
    parse_identity_public_iff sample sample_encoding sample_laws.kem sample_laws.signatures
      (marshal_identity sample (public_of sample alice)) (public_of sample alice)

identity_equal_iff_example :
    (identity_equal sample (some (public_of sample alice)) (some (public_of sample bob)) ≡ true) ↔ (
      marshal_identity sample (public_of sample alice)
      ≡ marshal_identity sample (public_of sample bob))
identity_equal_iff_example =
    identity_equal_iff sample sample_laws.kem sample_laws.signatures (public_of sample alice)
      (public_of sample bob)
      (public_of-IsSized sample sample_laws.kem sample_laws.signatures alice alice-IsSound)
      (public_of-IsSized sample sample_laws.kem sample_laws.signatures bob bob-IsSound)

abbrev pub generated : Identity sample
generated = record {
  ed_pub = tagged 32 5;
  ed_priv = tagged 64 5;
  dsa_priv = 9;
  xwing = record { mlkem_priv = 3; x25519_priv = padded 32 (7 ∷ []); x25519_pub = tagged 32 7 };
}

pub generate_ok : (w : State) → generate_identity sample w ≡ (ok generated, w)
unfolding generate_identity generate_identity_from generate_xwing_key multiply one padded ◌>>=◌
    copy_into take zeros replicate drop
generate_ok w = refl

generate_identity_from-IsSound_example : IsSound sample generated
unfolding generate_identity_from generate_xwing_key multiply one padded ◌>>=◌ copy_into take zeros
    replicate drop
generate_identity_from-IsSound_example =
    generate_identity_from-IsSound sample sample_laws.kem sample_laws.entropy tt start start
      generated refl
