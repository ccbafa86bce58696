-- ===== src/Channel/Batch/Tried.antt =====
-- channel.go: Write as the sending of the records whose numbers it uses.
use zwing.Base.{
  ℕ, zero, suc, ◌+◌, ◌-◌, ◌≤◌, ◌≡◌, refl, sym, ap, ◌∙◌, Bytes, List, [], ◌∷◌, length, take, arith,
  Option, Outcome, ok, err, panic,
}
use zwing.Platform.{Platform}
use zwing.Aead.{nonce_for}
use zwing.Channel.{Conn, write, write_raw, max_seq}
use zwing.Channel.Stream.{chunks}
use zwing.Channel.Batch.{sealed, send_all, report, send_batch}
use zwing.Channel.Batch.Writing.{write-write_batch}

-- A short front of a front.
take_front :
    {A : Type 0} (k m : ℕ) (xs : List A) → k ≤ length (take m xs) → take k (take m xs) ≡ take k xs
unfolding take
take_front zero m xs h = refl
take_front (suc k) zero [] h = refl
take_front (suc k) zero (x ∷ xs) h = absurd (omega arith)
take_front (suc k) (suc m) [] h = refl
take_front (suc k) (suc m) (x ∷ xs) h = ap (λ r. x ∷ r) (take_front k m xs (omega arith))

module _ (P : Platform) where
  -- How many frames were tried: one more than were sent, if the last failed.
  tried : ℕ → Outcome (Unit {0}) → ℕ
  tried n (ok u) = n
  tried n (err e) = suc n
  tried n (panic p) = suc n

  tried-suc : (n : ℕ) (o : Outcome (Unit {0})) → tried (suc n) o ≡ suc (tried n o)
  unfolding tried
  tried-suc n (ok u) = refl
  tried-suc n (err e) = refl
  tried-suc n (panic p) = refl

  -- Sending the first of some frames, by how that ended.
  first :
      Option P.RawConn
      → List Bytes
      → P.World
      → Outcome (Unit {0})
      → ℕ × Outcome (Unit {0}) × P.World
  first raw fs w (ok u) = let s = send_all P raw fs w in (suc (s.0), s.1, s.2)
  first raw fs w (err e) = (0, err e, w)
  first raw fs w (panic p) = (0, panic p, w)

  send_all-cons :
      (raw : Option P.RawConn) (f : Bytes) (fs : List Bytes) (w : P.World)
      → let sent = write_raw P raw f w in send_all P raw (f ∷ fs) w ≡ first raw fs (sent.1) (sent.0)
  unfolding send_all first
  send_all-cons raw f fs w =
      let sent = write_raw P raw f w in
      elim (sent.0)
        as (λ o.
          ◌≡◌ {A = ℕ × Outcome (Unit {0}) × P.World}
            (elim o as (λ k. ℕ × Outcome (Unit {0}) × P.World) [
              | ok u ↦ let (n, o', w') = send_all P raw fs (sent.1) in (suc n, o', w')
              | err e ↦ (0, err e, sent.1)
              | panic p ↦ (0, panic p, sent.1)
            ])
            (first raw fs (sent.1) o)) [ ok u ↦ refl | err e ↦ refl | panic p ↦ refl ]

  -- Only the frames that were tried matter, and there are enough of them.
  abbrev IsTried : (List Bytes → ℕ × Outcome (Unit {0}) × P.World) → List Bytes → Type 0
  IsTried send rs =
      let s = send rs in (send (take (tried (s.0) (s.1)) rs) ≡ s) × (tried (s.0) (s.1) ≤ length rs)

  send_all-IsTried :
      (raw : Option P.RawConn) (a : P.Aead) (seq : ℕ) (rs : List Bytes) (w : P.World)
      → IsTried (λ rs. send_all P raw (sealed P a seq rs) w) rs
  unfolding send_all sealed take tried first
  send_all-IsTried raw a seq [] w = (refl, omega arith)
  send_all-IsTried raw a seq (r ∷ rs) w =
      let f = P.aead_seal a (nonce_for seq) r [] in
      let sent = write_raw P raw f w in
      let fs = sealed P a (seq + 1) rs in
      let s = send_all P raw (f ∷ fs) w in
      let by : s ≡ first raw fs (sent.1) (sent.0) = send_all-cons raw f fs w in
      elim (sent.0)
          as (λ o.
            (s ≡ first raw fs (sent.1) o)
            → ((gs : List Bytes) → send_all P raw (f ∷ gs) w ≡ first raw gs (sent.1) o)
            → (send_all P raw (sealed P a seq (take (tried (s.0) (s.1)) (r ∷ rs))) w ≡ s)
              × (tried (s.0) (s.1) ≤ suc (length rs))) [
                | ok u ↦ λ e more.
                    let t = send_all P raw fs (sent.1) in
                    let rest = send_all-IsTried raw a (seq + 1) rs (sent.1) in
                    let k : tried (s.0) (s.1) ≡ suc (tried (t.0) (t.1)) =
                      ap (λ s. tried (s.0) (s.1)) e ∙ tried-suc (t.0) (t.1) in
                    (
                      ap (λ k. send_all P raw (sealed P a seq (take k (r ∷ rs))) w) k
                          ∙ more (sealed P a (seq + 1) (take (tried (t.0) (t.1)) rs))
                          ∙ ap {B = ℕ × Outcome (Unit {0}) × P.World} (λ s. (suc (s.0), s.1, s.2))
                              rest.0
                          ∙ sym e,
                      omega (arith, k, rest.1),
                    )
                | err x ↦ λ e more.
                    let k : tried (s.0) (s.1) ≡ 1 = ap (λ s. tried (s.0) (s.1)) e in
                    (
                      ap (λ k. send_all P raw (sealed P a seq (take k (r ∷ rs))) w) k
                          ∙ more []
                          ∙ sym e,
                      omega (arith, k),
                    )
                | panic p ↦ λ e more.
                    let k : tried (s.0) (s.1) ≡ 1 = ap (λ s. tried (s.0) (s.1)) e in
                    (
                      ap (λ k. send_all P raw (sealed P a seq (take k (r ∷ rs))) w) k
                          ∙ more []
                          ∙ sym e,
                      omega (arith, k),
                    )
              ]
        by (λ gs. send_all-cons raw f gs w)

  report-tried :
      (c : Conn P) (written : ℕ) (rs : List Bytes) (n : ℕ) (o : Outcome (Unit {0})) (w : P.World)
      → let r = report P c written rs n o w in (r.1.write_seq ≡ c.write_seq + tried n o) × (r.2 ≡ w)
  unfolding report tried
  report-tried c written rs n (ok u) w = (refl, refl)
  report-tried c written rs n (err e) w = (omega arith, refl)
  report-tried c written rs n (panic p) w = (omega arith, refl)

  -- Write leaves the world in which the records of the numbers that it used were sealed under
  -- these numbers and put on the connection.
  pub write-sealed :
      (c : Conn P) (b : Bytes) (w : P.World)
      → c.write_seq ≤ max_seq
      → let r = write P c b w in
        let records = take (r.1.write_seq - c.write_seq) (chunks (length b) b) in
        (send_all P c.raw (sealed P c.write_aead c.write_seq records) w).2 ≡ r.2
  unfolding send_batch
  write-sealed c b w h =
      let cs = chunks (length b) b in
      let room = take (max_seq - c.write_seq) cs in
      let send : List Bytes → ℕ × Outcome (Unit {0}) × P.World =
        λ rs. send_all P c.raw (sealed P c.write_aead c.write_seq rs) w in
      let s = send room in
      let k = tried (s.0) (s.1) in
      let run = (write-write_batch P c b w (length b) h (omega arith)).0 in
      let done = report-tried c 0 cs (s.0) (s.1) (s.2) in
      let enough = send_all-IsTried c.raw c.write_aead c.write_seq room w in
      let used : (write P c b w).1.write_seq - c.write_seq ≡ k =
        omega (arith, ap (λ r. r.1.write_seq) run, done.0) in
      ap (λ k. (send (take k cs)).2) used
      ∙ ap (λ rs. (send rs).2) (sym (take_front k (max_seq - c.write_seq) cs enough.1))
      ∙ ap (λ s. s.2) enough.0
      ∙ sym (ap (λ r. r.2) run ∙ done.1)
