-- ===== src/Endpoint/Deadlines.antt =====
-- The deadline around a handshake (dial.go), on every way out of it.
use zwing.Base.{
  ◌+◌, ◌<◌, ◌≡◌, refl, sym, ap, arith, Bool, true, false, ◌⊎◌, inl, inr, none, some, ltb, ltb→lt,
  ltb→le, if◌then◌else◌, Proc, Outcome, ok, err, panic, continue, ◌>>=◌, ◌>>◌,
}
use zwing.Base.Returns.{IsReturn}
use zwing.Platform.{Platform}
use zwing.Config.{Config}
use zwing.Endpoint.{kept, dropped, deferred, ignored, with_deadline}

kept-return :
    {A B : Type 0} (o : Outcome A) (s : Outcome B) {r : Outcome A}
    → IsReturn r
    → kept o s ≡ r
    → o ≡ r
unfolding kept
kept-return o (ok b) calm e = e
kept-return o (err f) calm e = e
kept-return o (panic p) calm e = absurd (calm.never p (sym e))

module _ {W A B : Type 0} where
  dropped-then :
      (x : Outcome A) (n : Proc W B) (w w' : W) {r : Outcome B}
      → IsReturn r
      → continue (dropped x) (λ _. n) w ≡ (r, w')
      → n w ≡ (r, w')
  unfolding dropped
  dropped-then (ok a) n w w' calm e = e
  dropped-then (err f) n w w' calm e = e
  dropped-then (panic p) n w w' calm e = absurd (calm.never p (ap (λ q. q.0) (sym e)))

  -- A call whose error is lost, and what follows it.
  pub ignored-then :
      (m : Proc W A) (n : Proc W B) (w w' : W) {r : Outcome B}
      → IsReturn r
      → (ignored m >> n) w ≡ (r, w')
      → n (m w).1 ≡ (r, w')
  unfolding ◌>>=◌ ignored
  ignored-then m n w w' calm e = dropped-then (m w).0 n (m w).1 w' calm e

module _ (P : Platform) where
  pub if-cases :
      {A : Type 0} (t : Bool) (m n : Proc P.World A) (w : P.World) {r : Outcome A × P.World}
      → (if t then m else n) w ≡ r
      → ((t ≡ true) × (m w ≡ r)) ⊎ ((t ≡ false) × (n w ≡ r))
  if-cases true m n w e = inl (refl, e)
  if-cases false m n w e = inr (refl, e)

  -- A body that ran between two worlds, without a deadline or with one.
  pub record Timed {A : Type 0} (conn : P.RawConn) (cfg : Config P) (body : Proc P.World A)
      (w w' : P.World) (o : Outcome A) : Type 0 where
    pub w0 : P.World
    pub w1 : P.World
    pub run : body w0 ≡ (o, w1)
    pub span :
        ((cfg.handshake_timeout ≡ 0) × (w0 ≡ w) × (w' ≡ w1))
        ⊎ ((0 < cfg.handshake_timeout)
            × (w0
                ≡ (P.conn_set_deadline conn
                    (some ((P.now w).0 + cfg.handshake_timeout))
                    (P.now w).1).1)
            × (w' ≡ (P.conn_set_deadline conn none w1).1))

  pub with_deadline-Timed :
      {A : Type 0} (conn : P.RawConn) (cfg : Config P) (body : Proc P.World A) (w w' : P.World)
      (o : Outcome A)
      → with_deadline P conn cfg body w ≡ (o, w')
      → IsReturn o
      → Timed conn cfg body w w' o
  unfolding with_deadline deferred
  with_deadline-Timed conn cfg body w w' o h calm =
      elim (if-cases (ltb 0 cfg.handshake_timeout) _ body w h) [
        | inr (off, run) ↦
            let le = ltb→le 0 cfg.handshake_timeout off in
            record { w0 = w; w1 = w'; run = run; span = inl (omega arith, refl, refl) }
        | inl (on, run) ↦
            let lt = ltb→lt 0 cfg.handshake_timeout on in
            let set = P.conn_set_deadline conn (some ((P.now w).0 + cfg.handshake_timeout)) in
            let clear = P.conn_set_deadline conn none in
            let w0 = (set (P.now w).1).1 in
            let e = ignored-then set (deferred body clear) (P.now w).1 w' calm run in
            record {
              w0 = w0;
              w1 = (body w0).1;
              run =
                  ap (λ r. (r, (body w0).1))
                    (kept-return (body w0).0 (clear (body w0).1).0 calm (ap (λ q. q.0) e));
              span = inr (lt, refl, sym (ap (λ q. q.1) e));
            }
      ]
