-- ===== src/Handshake/Agreement/Calm.antt =====
-- The steps of a handshake and the other direction of the connection.
use zwing.Base.{ℕ, Bytes, Option, Proc, proc_or_nil}
use zwing.Base.Keeps.{Keeps, keeps_rules}
use zwing.Platform.{Platform}
use zwing.Kem.{XWingPublicKey, xwing_encapsulate}
use zwing.Identity.{Identity, sign}

Keeps-proc_or_nil :
    {W V : Type 0} {v : W → V} (m : Proc W Bytes) → Keeps v m → Keeps v (proc_or_nil m)
Keeps-proc_or_nil m k = record { at = k.at }

module _ (P : Platform) {V : Type 0} (v : P.World → V) where
  pub sign-Keeps :
      ((sk : P.MldsaPrivate) (r : P.Reader) (d c : Bytes) → Keeps v (P.mldsa_sign_ctx sk r d c))
      → (id : Identity P) (ctx message : Bytes) → Keeps v (sign P id ctx message)
  unfolding sign
  sign-Keeps k id ctx message = search (keeps_rules, k, Keeps-proc_or_nil)

  pub xwing_encapsulate-Keeps :
      ((pk : P.MlkemPublic) (r : P.Reader) → Keeps v (P.mlkem_encapsulate pk r))
      → ((r : P.Reader) (n : ℕ) → Keeps v (P.entropy_read_full r n))
      → (reader : Option P.Reader) (pk : XWingPublicKey P) → Keeps v (xwing_encapsulate P reader pk)
  unfolding xwing_encapsulate
  xwing_encapsulate-Keeps km ke reader pk = search (keeps_rules, km, ke)
