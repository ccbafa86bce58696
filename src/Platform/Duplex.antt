-- ===== src/Platform/Duplex.antt =====
-- Two ends of a connection that is up in both directions, and stays so while keys are generated.
use zwing.Base.{ℕ, Bytes}
use zwing.Base.Keeps.{Keeps}
use zwing.Host.Link.{Link}
use zwing.Platform.{Platform}

module _ (P : Platform) where
  -- What is on its way to either end is changed by that direction's reads and writes alone.
  pub record Duplex (a b : P.RawConn) : Type 0 where
    pub forward : Link P.host a b
    pub backward : Link P.host b a
    pub write_forward : (bs : Bytes) → Keeps backward.pending (P.conn_write a bs)
    pub read_forward : (n : ℕ) → Keeps backward.pending (P.conn_read_full b n)
    pub write_backward : (bs : Bytes) → Keeps forward.pending (P.conn_write b bs)
    pub read_backward : (n : ℕ) → Keeps forward.pending (P.conn_read_full a n)
    pub sign_forward :
        (sk : P.MldsaPrivate) (r : P.Reader) (digest ctx : Bytes)
        → Keeps forward.pending (P.mldsa_sign_ctx sk r digest ctx)
    pub sign_backward :
        (sk : P.MldsaPrivate) (r : P.Reader) (digest ctx : Bytes)
        → Keeps backward.pending (P.mldsa_sign_ctx sk r digest ctx)
    pub mlkem_forward :
        (pk : P.MlkemPublic) (r : P.Reader) → Keeps forward.pending (P.mlkem_encapsulate pk r)
    pub mlkem_backward :
        (pk : P.MlkemPublic) (r : P.Reader) → Keeps backward.pending (P.mlkem_encapsulate pk r)
    pub entropy_forward : (r : P.Reader) (n : ℕ) → Keeps forward.pending (P.entropy_read_full r n)
    pub entropy_backward : (r : P.Reader) (n : ℕ) → Keeps backward.pending (P.entropy_read_full r n)
