-- ===== src/Channel/Integrity.antt =====
-- The reading end against whoever controls the network: any bytes may arrive, at any time.
pub mod Records
pub mod Sent
pub mod Sealed
use zwing.Base.{
  ℕ, zero, suc, ◌+◌, ◌%◌, ◌^◌, ◌<◌, ◌≤◌, ◌≡◌, refl, sym, subst, ap, ◌∙◌, Bytes, Bool-cases,
  Option-cases, inl, inr, Option, none, some, List, [], ◌∷◌, ◌++◌, min, length, take, drop,
  copy_into, if◌then◌else◌, arith, ltb, ◌==◌, ==→ne, append_assoc, append-nil, Outcome, ok, err,
  panic, length_zero, ltb→le,
}
use native.Mathlib.Nat.{mod-eq_of_lt}
use zwing.Platform.{Platform}
use zwing.Aead.{nonce_for}
use zwing.Channel.{
  Conn, ReadReturn, open_frame, read_buffered, after_frame, read, write, read_raw, max_seq,
}
use zwing.Channel.Halves.{write-WriterOf}
use zwing.Channel.Stream.{concat, concat-append, concat_one, concat_nil}
use zwing.Channel.Stream.Reading.{copied, kept}
use zwing.Channel.Exchange.{handed}

-- The record of a number, if so many were sealed.
unfoldable pub get_elem? {ℓ} : {A : Type ℓ} → List A → ℕ → Option A
get_elem? [] n = none
get_elem? (x ∷ xs) zero = some x
get_elem? (x ∷ xs) (suc n) = get_elem? xs n

some_inj : {A : Type 0} {a b : A} → some a ≡ some b → a ≡ b
some_inj e = cc

-- One record more.
take-suc :
    {A : Type 0} (xs : List A) (n : ℕ) (x : A)
    → get_elem? xs n ≡ some x
    → take (suc n) xs ≡ take n xs ++ (x ∷ [])
unfolding get_elem? take
take-suc [] n x e = cc
take-suc (y ∷ ys) zero x e = ap (λ a. a ∷ []) (some_inj e)
take-suc (y ∷ ys) (suc n) x e = ap (λ r. y ∷ r) (take-suc ys n x e)

module _ (P : Platform) where
  -- Calls of Read and Write at one end, each in any world, and all that the reads handed out.
  pub data Reads (c : Conn P) : Bytes → Conn P → Type 0 where
    here : Reads c [] c
    reads :
        {out : Bytes} {d : Conn P}
        → Reads c out d
        → (b : Bytes) (w : P.World) → Reads c (out ++ handed P (read P d b w).0) (read P d b w).1
    writes :
        {out : Bytes} {d : Conn P}
        → Reads c out d
        → (b : Bytes) (w : P.World) → Reads c out (write P d b w).1

  -- No forgery arrives: if the frame that Read takes from below opens under the number that is due,
  -- it opens to the peer's record of that number.
  abbrev pub IsUnforged : List Bytes → Conn P → P.World → Type 0
  IsUnforged log c w =
      (frame text : Bytes)
      → c.read_buf ≡ []
      → (read_raw P c.raw w).0 ≡ ok frame
      → c.read_seq < max_seq
      → P.aead_open c.read_aead (nonce_for c.read_seq) frame [] ≡ some text
      → get_elem? log c.read_seq ≡ some text

  -- No forgery arrives at any read of a run.
  unfoldable pub AreUnforged :
      (log : List Bytes) {c d : Conn P} {out : Bytes} → Reads c out d → Type 0
  AreUnforged log here = Unit
  AreUnforged log (reads {out} {d} before b w) = AreUnforged log before × IsUnforged log d w
  AreUnforged log (writes before b w) = AreUnforged log before

  -- What was handed out and what is kept are the first records of the log.
  record IsGenuine (log : List Bytes) (out : Bytes) (c : Conn P) : Type 0 where
    below : c.read_seq ≤ max_seq
    front : out ++ c.read_buf ≡ concat (take c.read_seq log)

  module _ (log : List Bytes) where
    -- A read that hands out nothing changes nothing.
    still :
        (out : Bytes) (c : Conn P) (b : Bytes)
        → IsGenuine log out c
        → IsGenuine log (out ++ take 0 b) c
    unfolding take
    still out c b g = subst (λ o. IsGenuine log o c) (sym (append-nil out)) g

    opened :
        (out : Bytes) (c : Conn P) (b text : Bytes)
        → c.read_buf ≡ []
        → c.read_seq < max_seq
        → get_elem? log c.read_seq ≡ some text
        → IsGenuine log out c
        → let n = min (length b) (length text) in
          IsGenuine log (out ++ take n (copy_into b text)) (record c {
            read_seq = (c.read_seq + 1) % 2 ^ 64;
            read_buf = if ltb n (length text) then drop n text else c.read_buf;
          })
    opened out c b text empty room genuine g =
        let n = min (length b) (length text) in
        let next : (c.read_seq + 1) % 2 ^ 64 ≡ c.read_seq + 1 = mod-eq_of_lt (omega arith) in
        let one_more : c.read_seq + 1 ≡ suc c.read_seq = omega arith in
        record {
          below = omega arith;
          front =
              ap (λ l. (out ++ take n (copy_into b text)) ++ l)
                (kept (length b) text c.read_buf empty)
              ∙ append_assoc out (take n (copy_into b text)) (drop n text)
              ∙ ap (λ l. out ++ l) (copied b text)
              ∙ ap (λ l. l ++ text) (sym (ap (λ l. out ++ l) empty ∙ append-nil out) ∙ g.front)
              ∙ ap (λ l. concat (take c.read_seq log) ++ l) (sym (concat_one text))
              ∙ sym (concat-append (take c.read_seq log) (text ∷ []))
              ∙ ap concat (sym (take-suc log c.read_seq text genuine))
              ∙ ap (λ k. concat (take k log)) (sym (next ∙ one_more));
        }

    open_frame-IsGenuine :
        (out : Bytes) (c : Conn P) (b frame : Bytes)
        → c.read_buf ≡ []
        → ((text : Bytes)
            → c.read_seq < max_seq
            → P.aead_open c.read_aead (nonce_for c.read_seq) frame [] ≡ some text
            → get_elem? log c.read_seq ≡ some text)
        → IsGenuine log out c
        → let o = open_frame P c b frame in IsGenuine log (out ++ take o.0.count o.0.buffer) o.1
    unfolding open_frame
    open_frame-IsGenuine out c b frame empty unforged g =
        elim (Bool-cases (c.read_seq == max_seq)) [
          | inl full ↦ rw (full, open_frame) (still out c b g)
          | inr room ↦
              elim (Option-cases (P.aead_open c.read_aead (nonce_for c.read_seq) frame [])) [
                | inl bad ↦ rw (room, bad, open_frame) (still out c b g)
                | inr (text, good) ↦
                    let differs = ==→ne c.read_seq max_seq room in
                    let below = g.below in
                    let genuine = unforged text (omega arith) good in
                    rw (room, good, open_frame) (opened out c b text empty (omega arith) genuine g)
              ]
        ]

    read_buffered-IsGenuine :
        (out : Bytes) (c : Conn P) (b : Bytes)
        → IsGenuine log out c
        → let o = read_buffered P c b in IsGenuine log (out ++ take o.0.count o.0.buffer) o.1
    unfolding read_buffered
    read_buffered-IsGenuine out c b g =
        let n = min (length b) (length c.read_buf) in
        record {
          below = g.below;
          front =
              append_assoc out (take n (copy_into b c.read_buf)) (drop n c.read_buf)
              ∙ ap (λ l. out ++ l) (copied b c.read_buf)
              ∙ g.front;
        }

    after_frame-IsGenuine :
        (out : Bytes) (c : Conn P) (b : Bytes) (o : Outcome Bytes) (w w' : P.World)
        → c.read_buf ≡ []
        → IsUnforged log c w'
        → (read_raw P c.raw w').0 ≡ o
        → IsGenuine log out c
        → let r = after_frame P c b o w in IsGenuine log (out ++ handed P r.0) r.1
    unfolding after_frame
    after_frame-IsGenuine out c b (ok frame) w w' empty unforged e g =
        open_frame-IsGenuine out c b frame empty (λ text. unforged frame text empty e) g
    after_frame-IsGenuine out c b (err f) w w' empty unforged e g = still out c b g
    after_frame-IsGenuine out c b (panic p) w w' empty unforged e g =
        subst (λ o. IsGenuine log o c) (sym (append-nil out)) g

    read-IsGenuine :
        (out : Bytes) (c : Conn P) (b : Bytes) (w : P.World)
        → IsUnforged log c w
        → IsGenuine log out c
        → let o = read P c b w in IsGenuine log (out ++ handed P o.0) o.1
    read-IsGenuine out c b w unforged g = elim (Bool-cases (ltb 0 (length c.read_buf))) [
      | inl more ↦
          let (r, c') = read_buffered P c b in
          let e : read P c b w ≡ (ok r, c', w) = unfold read in rw (more, read) refl in
          subst
            (λ (o : Outcome (ReadReturn P) × Conn P × P.World).
              IsGenuine log (out ++ handed P o.0) o.1)
            (sym e) (read_buffered-IsGenuine out c b g)
      | inr none_left ↦
          let frame = read_raw P c.raw w in
          let e : read P c b w ≡ after_frame P c b frame.0 frame.1 =
            unfold read in rw (none_left, read) refl in
          subst
            (λ (o : Outcome (ReadReturn P) × Conn P × P.World).
              IsGenuine log (out ++ handed P o.0) o.1)
            (sym e)
            (after_frame-IsGenuine out c b frame.0 frame.1 w
              (length_zero c.read_buf (ltb→le 0 (length c.read_buf) none_left)) unforged refl g)
    ]

    Reads-IsGenuine :
        {c d : Conn P} {out : Bytes} (calls : Reads c out d)
        → AreUnforged log calls
        → IsGenuine log [] c
        → IsGenuine log out d
    unfolding AreUnforged
    Reads-IsGenuine here u g = g
    Reads-IsGenuine (reads {out} {d} before b w) u g =
        read-IsGenuine out d b w u.1 (Reads-IsGenuine before u.0 g)
    Reads-IsGenuine (writes {out} {d} before b w) u g =
        let k = Reads-IsGenuine before u g in
        subst (λ c. IsGenuine log out c) (sym (write-WriterOf P d b w))
          (record { below = k.below; front = k.front })

    -- Whatever the network delivers, if no frame that a read takes opens to anything but the
    -- peer's record of the number that is due: what the reads of a connection that starts at zero
    -- have handed out, with what it still keeps, is the first records of the peer, as many as it
    -- has counted, in order and unchanged.
    pub Reads-front :
        (c d : Conn P) (out : Bytes) (calls : Reads c out d)
        → AreUnforged log calls
        → c.read_seq ≡ 0
        → c.read_buf ≡ []
        → out ++ d.read_buf ≡ concat (take d.read_seq log)
    unfolding take
    Reads-front c d out calls unforged start empty =
        (Reads-IsGenuine calls unforged (record {
          below = omega arith;
          front = empty ∙ sym concat_nil ∙ ap (λ n. concat (take n log)) (sym start);
        })).front
