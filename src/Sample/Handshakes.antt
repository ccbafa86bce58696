-- ===== src/Sample/Handshakes.antt =====
-- The theorems on keys, identities and handshakes at two sample identities.
use zwing.Base.{refl, arith}
use zwing.Identity.{Identity}
use zwing.Identity.Codec.{IsSound}
use zwing.Sample.Primitives.{tagged, length-tagged, multiply, one}
use zwing.Sample.Machine.{start, sample}

abbrev pub alice : Identity sample
alice = record {
  ed_pub = tagged 32 5;
  ed_priv = tagged 64 5;
  dsa_priv = 11;
  xwing = record { mlkem_priv = 21; x25519_priv = tagged 32 2; x25519_pub = tagged 32 2 };
}

abbrev pub bob : Identity sample
bob = record {
  ed_pub = tagged 32 5;
  ed_priv = tagged 64 5;
  dsa_priv = 12;
  xwing = record { mlkem_priv = 22; x25519_priv = tagged 32 3; x25519_pub = tagged 32 3 };
}

pub alice-IsSound : IsSound sample alice
unfolding multiply one
alice-IsSound = record {
  ed25519 = (tt, start, start, refl);
  xwing = record { scalar = length-tagged 32 2 (omega arith); point = refl };
}

pub bob-IsSound : IsSound sample bob
unfolding multiply one
bob-IsSound = record {
  ed25519 = (tt, start, start, refl);
  xwing = record { scalar = length-tagged 32 3 (omega arith); point = refl };
}
