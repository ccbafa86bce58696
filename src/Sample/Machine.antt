-- ===== src/Sample/Machine.antt =====
-- A process with one connection, whose ends are `true` and `false`.
use zwing.Base.{ℕ, Bytes, Bool, true, false, Option, none, ◌++◌, [], ◌∷◌, length, take, drop}
use zwing.Base.{ltb, if◌then◌else◌, Proc, ok, err, external, bytes_eq}
use zwing.Host.{Host}
use zwing.Platform.{Platform}
use zwing.Sample.Primitives.{tagged, untag, multiply, one, padded, seal, unseal}

pub record State : Type 0 where
  pub to_true : Bytes
  pub to_false : Bytes
  pub deadline : Option ℕ
  pub closed : Bool

abbrev pub start : State
start = record { to_true = []; to_false = []; deadline = none; closed = false }

unfoldable pub send : Bool → Bytes → Proc State (Unit {0})
send true bs w = (ok tt, record w { to_false = w.to_false ++ bs })
send false bs w = (ok tt, record w { to_true = w.to_true ++ bs })

unfoldable pub receive : Bool → ℕ → Proc State Bytes
receive true n w =
    if ltb (length w.to_true) n
    then (err (external 0), w)
    else (ok (take n w.to_true), record w { to_true = drop n w.to_true })
receive false n w =
    if ltb (length w.to_false) n
    then (err (external 0), w)
    else (ok (take n w.to_false), record w { to_false = drop n w.to_false })

abbrev pub machine : Host
machine = record {
  World = State;
  Reader = Unit {0};
  rand_reader = tt;
  entropy_read_full = λ r n w. (ok (padded n (7 ∷ [])), w);
  RawConn = Bool;
  conn_write = send;
  conn_read_full = receive;
  conn_close = λ c w. (ok tt, record w { closed = true });
  conn_set_deadline = λ c d w. (ok tt, record w { deadline = d });
  conn_set_read_deadline = λ c d w. (ok tt, record w { deadline = d });
  conn_set_write_deadline = λ c d w. (ok tt, record w { deadline = d });
  Addr = ℕ;
  conn_local_addr = λ c. 7000;
  conn_remote_addr = λ c. 7001;
  listener_addr = λ l. 7000;
  now = λ w. (1000, w);
  RawListener = Unit {0};
  dial_tcp = λ addr w. (ok true, w);
  listen_tcp = λ addr w. (ok tt, w);
  listener_accept = λ l w. (ok false, w);
  listener_close = λ l w. (ok tt, w);
}

abbrev pub sample : Platform
sample = record {
  host = machine;
  MlkemPublic = ℕ;
  MlkemPrivate = ℕ;
  mlkem_generate = λ r w. (ok 3, w);
  mlkem_public = λ sk. sk;
  mlkem_public_bytes = tagged 1184;
  mlkem_public_from_bytes = untag 1184;
  mlkem_encapsulate = λ pk r w. (ok (tagged 1088 pk, tagged 32 pk), w);
  mlkem_decapsulate = λ sk ct. ok (tagged 32 sk);
  x25519 = multiply;
  basepoint = one;
  sha256 = padded 32;
  sha3_256 = padded 32;
  hkdf_sha256 = λ secret info n. padded n (info ++ secret);
  ed25519_generate = λ r w. (ok (tagged 32 5, tagged 64 5), w);
  ed25519_sign = λ priv_key digest. padded 64 digest;
  ed25519_verify = λ pub_key digest sig. bytes_eq sig (padded 64 digest);
  MldsaPublic = ℕ;
  MldsaPrivate = ℕ;
  mldsa_generate = λ r w. (ok 9, w);
  mldsa_public = λ sk. sk;
  mldsa_public_bytes = tagged 1952;
  mldsa_public_from_bytes = untag 1952;
  mldsa_sign_ctx = λ sk r digest ctx w. (ok (padded 3309 (sk ∷ (ctx ++ digest))), w);
  mldsa_verify_ctx = λ pk digest sig ctx. bytes_eq sig (padded 3309 (pk ∷ (ctx ++ digest)));
  Aead = Bytes;
  chacha_new = λ key. key;
  aead_seal = seal;
  aead_open = unseal;
}
