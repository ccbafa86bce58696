-- ===== src/Channel/Keys.antt =====
-- Making the two ends of a channel from the two results of a handshake.
use zwing.Base.{
  ◌≡◌, refl, sym, ap, ◌∙◌, [], Bytes, true, false, some, length, zeros, ok, and_then, eq→==,
}
use zwing.Platform.{Platform}
use zwing.Kem.{zero_bytes}
use zwing.Kem.Agreement.{zero_bytes-zeros}
use zwing.Aead.{must_chacha20}
use zwing.Handshake.{HandshakeResult}
use zwing.Channel.{Conn, new_conn}

module _ (P : Platform) where
  -- What one end seals with, the other opens with, and both begin at zero.
  pub record AreCrossed (a b : Conn P) : Type 0 where
    pub a_to_b : a.write_aead ≡ b.read_aead
    pub b_to_a : b.write_aead ≡ a.read_aead
    pub start_ab : (a.write_seq ≡ 0) × (b.read_seq ≡ 0)
    pub start_ba : (b.write_seq ≡ 0) × (a.read_seq ≡ 0)

  -- After newConn the keys in the result are zeros; the shared secret stays.
  pub record AreErased (before after : HandshakeResult P) : Type 0 where
    pub key_i2r : after.key_i2r ≡ zeros (length before.key_i2r)
    pub key_r2i : after.key_r2i ≡ zeros (length before.key_r2i)
    pub shared : after.shared ≡ before.shared

  abbrev pub end_of : P.RawConn → HandshakeResult P → Bytes → Bytes → Conn P
  end_of raw res rx_key tx_key = record {
    raw = some raw;
    remote = res.remote;
    read_aead = P.chacha_new rx_key;
    read_seq = 0;
    read_buf = [];
    write_aead = P.chacha_new tx_key;
    write_seq = 0;
  }

  abbrev pub erased : HandshakeResult P → HandshakeResult P
  erased res = record res { key_i2r = zero_bytes res.key_i2r; key_r2i = zero_bytes res.key_r2i }

  pub initiator_end :
      (raw : P.RawConn) (res : HandshakeResult P)
      → length res.key_i2r ≡ 32
      → length res.key_r2i ≡ 32
      → new_conn P raw res true ≡ ok (end_of raw res res.key_r2i res.key_i2r, erased res)
  unfolding new_conn must_chacha20 and_then
  initiator_end raw res hi hr = rw (eq→== _ 32 hr, eq→== _ 32 hi)

  pub responder_end :
      (raw : P.RawConn) (res : HandshakeResult P)
      → length res.key_i2r ≡ 32
      → length res.key_r2i ≡ 32
      → new_conn P raw res false ≡ ok (end_of raw res res.key_i2r res.key_r2i, erased res)
  unfolding new_conn must_chacha20 and_then
  responder_end raw res hi hr = rw (eq→== _ 32 hr, eq→== _ 32 hi)

  erased-AreErased : (res : HandshakeResult P) → AreErased res (erased res)
  erased-AreErased res = record {
    key_i2r = zero_bytes-zeros res.key_i2r;
    key_r2i = zero_bytes-zeros res.key_r2i;
    shared = refl;
  }

  -- From results with the same two keys of 32 bytes newConn makes two ends that fit: what the one
  -- seals with, the other opens with, both count from zero; and it erases the keys of both
  -- results, but not their shared secret.
  pub new_conn-AreCrossed :
      (raw_a raw_b : P.RawConn) (res_a res_b : HandshakeResult P)
      → length res_a.key_i2r ≡ 32
      → length res_a.key_r2i ≡ 32
      → res_a.key_i2r ≡ res_b.key_i2r
      → res_a.key_r2i ≡ res_b.key_r2i
      → (a : Conn P) × (after_a : HandshakeResult P) × (b : Conn P) × (after_b : HandshakeResult P)
        × (new_conn P raw_a res_a true ≡ ok (a, after_a))
        × (new_conn P raw_b res_b false ≡ ok (b, after_b))
        × AreCrossed a b
        × AreErased res_a after_a
        × AreErased res_b after_b
  new_conn-AreCrossed raw_a raw_b res_a res_b hi hr ei er = (
    end_of raw_a res_a res_a.key_r2i res_a.key_i2r,
    erased res_a,
    end_of raw_b res_b res_b.key_i2r res_b.key_r2i,
    erased res_b,
    initiator_end raw_a res_a hi hr,
    responder_end raw_b res_b (ap length (sym ei) ∙ hi) (ap length (sym er) ∙ hr),
    record {
      a_to_b = ap P.chacha_new ei;
      b_to_a = ap P.chacha_new (sym er);
      start_ab = (refl, refl);
      start_ba = (refl, refl);
    },
    erased-AreErased res_a,
    erased-AreErased res_b,
  )
