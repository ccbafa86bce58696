-- ===== src/Channel/Stream.antt =====
-- A channel as the stream of bytes that is on its way: one end writes at the back, the other reads
-- at the front.
pub mod Writing
pub mod Filling
pub mod Reading
use zwing.Base.{
  ℕ, zero, suc, ◌+◌, ◌<◌, ◌≤◌, ◌≡◌, refl, ap, ◌∙◌, sym, Bytes, All, some, List, [], ◌∷◌, ◌++◌,
}
use zwing.Base.{
  length, take, drop, arith, append_assoc, append-nil, take-append-drop, length-drop, length-take,
  min,
}
use zwing.Host.Link.{Link}
use zwing.Platform.{Platform}
use zwing.Wire.Frames.{frame}
use zwing.Aead.{nonce_for}
use zwing.Channel.{Conn, max_seq, max_plain}

-- All bytes of a list of records.
pub concat : List Bytes → Bytes
concat [] = []
concat (t ∷ ts) = t ++ concat ts

pub concat-append : (xs ys : List Bytes) → concat (xs ++ ys) ≡ concat xs ++ concat ys
unfolding concat
concat-append [] ys = refl
concat-append (x ∷ xs) ys =
    ap (λ r. x ++ r) (concat-append xs ys) ∙ sym (append_assoc x (concat xs) (concat ys))

pub concat_nil : concat [] ≡ []
unfolding concat
concat_nil = refl

pub concat_one : (t : Bytes) → concat (t ∷ []) ≡ t
unfolding concat
concat_one t = append-nil t

pub concat_cons : (t : Bytes) (ts : List Bytes) → concat (t ∷ ts) ≡ t ++ concat ts
unfolding concat
concat_cons t ts = refl

-- A record that Write makes: not empty, and within the limit.
abbrev pub IsRecord : Bytes → Type 0
IsRecord t = (0 < length t) × (length t ≤ max_plain)

-- The records that a write of some bytes makes.
unfoldable pub chunks : ℕ → Bytes → List Bytes
chunks fuel [] = []
chunks zero (x ∷ rest) = []
chunks (suc fuel) (x ∷ rest) = take max_plain (x ∷ rest) ∷ chunks fuel (drop max_plain (x ∷ rest))

-- With a round for each byte, nothing is left over.
pub concat-chunks : (fuel : ℕ) (bs : Bytes) → length bs ≤ fuel → concat (chunks fuel bs) ≡ bs
unfolding concat chunks
concat-chunks zero [] h = refl
concat-chunks zero (x ∷ rest) h = absurd (omega arith)
concat-chunks (suc fuel) [] h = refl
concat-chunks (suc fuel) (x ∷ rest) h =
    ap (λ r. take max_plain (x ∷ rest) ++ r)
      (concat-chunks fuel (drop max_plain (x ∷ rest))
        (omega (arith, length-drop max_plain (x ∷ rest))))
    ∙ take-append-drop max_plain (x ∷ rest)

module _ (P : Platform) where
  -- The frames of some records, sealed from a sequence number on.
  pub seals : P.Aead → ℕ → List Bytes → Bytes
  seals a seq [] = []
  seals a seq (t ∷ ts) = frame (P.aead_seal a (nonce_for seq) t []) ++ seals a (seq + 1) ts

  pub seals_nil : (a : P.Aead) (seq : ℕ) → seals a seq [] ≡ []
  unfolding seals
  seals_nil a seq = refl

  pub seals-append :
      (a : P.Aead) (seq : ℕ) (ts : List Bytes) (t : Bytes)
      → seals a seq (ts ++ (t ∷ []))
        ≡ seals a seq ts ++ frame (P.aead_seal a (nonce_for (seq + length ts)) t [])
  unfolding seals
  seals-append a seq [] t =
      append-nil _ ∙ ap (λ n. frame (P.aead_seal a (nonce_for n) t [])) (omega arith)
  seals-append a seq (x ∷ ts) t =
      let head = frame (P.aead_seal a (nonce_for seq) x []) in
      ap (λ r. head ++ r)
        (seals-append a (seq + 1) ts t
          ∙ ap (λ n. seals a (seq + 1) ts ++ frame (P.aead_seal a (nonce_for n) t []))
              (omega arith))
      ∙ sym (append_assoc head _ _)

  pub seals-cons :
      (a : P.Aead) (seq : ℕ) (t : Bytes) (ts : List Bytes)
      → seals a seq (t ∷ ts) ≡ frame (P.aead_seal a (nonce_for seq) t []) ++ seals a (seq + 1) ts
  unfolding seals
  seals-cons a seq t ts = refl

  -- Two ends in step: what is on the wire are the records in between, sealed under the numbers
  -- that the reader expects next.
  pub record InStep (near far : P.RawConn) (link : Link P.host near far) (s r : Conn P)
      (w : P.World) (records : List Bytes) : Type 0 where
    pub raw_s : s.raw ≡ some near
    pub raw_r : r.raw ≡ some far
    pub same_key : s.write_aead ≡ r.read_aead
    pub counted : r.read_seq + length records ≡ s.write_seq
    pub below : s.write_seq ≤ max_seq
    pub wire : link.pending w ≡ seals r.read_aead r.read_seq records
    pub sized : All IsRecord records

  -- The bytes that the reader has not handed out yet.
  abbrev pub unread : Conn P → List Bytes → Bytes
  unread r records = r.read_buf ++ concat records

  -- Two ends that hold the same key are in step when nothing is sent or on the wire.
  pub idle-InStep :
      (near far : P.RawConn) (link : Link P.host near far) (s r : Conn P) (w : P.World)
      → (s.raw ≡ some near) × (r.raw ≡ some far)
      → s.write_aead ≡ r.read_aead
      → (s.write_seq ≡ 0) × (r.read_seq ≡ 0)
      → link.pending w ≡ []
      → InStep near far link s r w []
  unfolding seals
  idle-InStep near far link s r w (raw_s, raw_r) same (seq_s, seq_r) idle = record {
    raw_s = raw_s;
    raw_r = raw_r;
    same_key = same;
    counted = omega arith;
    below = omega arith;
    wire = idle;
    sized = tt;
  }
