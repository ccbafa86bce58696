-- ===== src/Channel/Integrity/Sealed.antt =====
-- Two ends with crossed keys (channel.go), against whoever controls the network between them.
use zwing.Base.{
  ℕ, zero, suc, ◌<◌, ◌≤◌, ◌≡◌, sym, ap, ap₂, ◌∙◌, Bytes, some, List, [], ◌∷◌, ◌++◌, length, take,
  arith, ok,
}
use zwing.Platform.{Platform}
use zwing.Platform.Laws.{AeadLaws}
use zwing.Aead.{nonce_for}
use zwing.Aead.Nonces.{nonce_for_inj}
use zwing.Channel.{Conn, read_raw, max_seq}
use zwing.Channel.Counters.{IsCounted, Calls-Advances}
use zwing.Channel.Keys.{AreCrossed}
use zwing.Channel.Stream.{concat}
use zwing.Channel.Integrity.{
  get_elem?, Reads, here, reads, writes, IsUnforged, AreUnforged, Reads-front,
}
use zwing.Channel.Integrity.Records.{records_of, Reads-Calls, length-records_of}
use zwing.Channel.Integrity.Sent.{AreSent, Reads-AreSent}

pub get_elem?_below :
    {A : Type 0} (xs : List A) (n : ℕ) (x : A) → get_elem? xs n ≡ some x → n < length xs
unfolding get_elem?
get_elem?_below [] n x e = cc
get_elem?_below (y ∷ ys) zero x e = omega arith
get_elem?_below (y ∷ ys) (suc n) x e = omega (arith, get_elem?_below ys n x e)

module _ (P : Platform) where
  -- A ciphertext that the log's owner made: the record of some number, sealed under that number.
  pub record IsSealed (log : List Bytes) (key : P.Aead) (nonce sealed : Bytes) : Type 0 where
    pub number : ℕ
    pub text : Bytes
    pub logged : get_elem? log number ≡ some text
    pub numbered : nonce ≡ nonce_for number
    pub made : sealed ≡ P.aead_seal key (nonce_for number) text []

  -- Integrity of ciphertexts at one read: a frame that opens is one that the owner made under that
  -- nonce.
  abbrev pub IsIntact : List Bytes → P.Aead → Conn P → P.World → Type 0
  IsIntact log key c w =
      (frame text : Bytes)
      → (read_raw P c.raw w).0 ≡ ok frame
      → P.aead_open c.read_aead (nonce_for c.read_seq) frame [] ≡ some text
      → IsSealed log key (nonce_for c.read_seq) frame

  unfoldable pub AreIntact :
      (log : List Bytes) (key : P.Aead) {c d : Conn P} {out : Bytes} → Reads P c out d → Type 0
  AreIntact log key here = Unit
  AreIntact log key (reads {out} {d} before b w) = AreIntact log key before × IsIntact log key d w
  AreIntact log key (writes before b w) = AreIntact log key before

  module _ (aead : AeadLaws P) (log : List Bytes) (key : P.Aead) (few : length log ≤ max_seq) where
    IsIntact-IsUnforged :
        (c : Conn P) (w : P.World) → key ≡ c.read_aead → IsIntact log key c w → IsUnforged P log c w
    IsIntact-IsUnforged c w same intact frame text empty e below opens =
        let s = intact frame text e opens in
        let logged = get_elem?_below log s.number s.text s.logged in
        let number : c.read_seq ≡ s.number =
          nonce_for_inj c.read_seq s.number (omega arith) (omega arith) s.numbered in
        let opened : P.aead_open c.read_aead (nonce_for c.read_seq) frame [] ≡ some s.text =
          ap₂ (λ k n. P.aead_open k n frame []) (sym same) s.numbered
          ∙ ap (λ f. P.aead_open key (nonce_for s.number) f []) s.made
          ∙ aead.open-seal key (nonce_for s.number) s.text [] in
        ap (get_elem? log) number ∙ s.logged ∙ sym opened ∙ opens

    AreIntact-AreUnforged :
        {c d : Conn P} {out : Bytes} (calls : Reads P c out d)
        → IsCounted P c
        → key ≡ c.read_aead
        → AreIntact log key calls
        → AreUnforged P log calls
    unfolding AreIntact AreUnforged
    AreIntact-AreUnforged here k same i = tt
    AreIntact-AreUnforged (reads {out} {d} before b w) k same i =
        let kept = Calls-Advances P (Reads-Calls P before) k in
        (
          AreIntact-AreUnforged before k same i.0,
          IsIntact-IsUnforged d w (same ∙ sym kept.read_aead) i.1,
        )
    AreIntact-AreUnforged (writes before b w) k same i = AreIntact-AreUnforged before k same i

  -- One direction: what the end `b` hands out is what the end `a` seals.
  one_way :
      AeadLaws P
      → (a b a' b' : Conn P) (out_a out_b : Bytes) (at_a : Reads P a out_a a')
        (at_b : Reads P b out_b b')
      → a.write_aead ≡ b.read_aead
      → IsCounted P a
      → IsCounted P b
      → (b.read_seq ≡ 0) × (b.read_buf ≡ [])
      → AreIntact (records_of P at_a) a.write_aead at_b
      → out_b ++ b'.read_buf ≡ concat (take b'.read_seq (records_of P at_a))
  one_way aead a b a' b' out_a out_b at_a at_b keys ka kb start intact =
      let log = records_of P at_a in
      let ends = (Calls-Advances P (Reads-Calls P at_a) ka).counted.writing in
      let size = length-records_of P at_a ka in
      Reads-front P log b b' out_b at_b
        (AreIntact-AreUnforged aead log a.write_aead (omega arith) at_b kb keys intact) start.0
        start.1

  -- Two ends fit, with nothing read and nothing written yet, and the libraries work. Then over
  -- any calls of Read and Write at each of them, whatever the network delivers in between, if
  -- every frame that opens at a read is one that the other end has sealed under the nonce of that
  -- read: in each direction, what the reads have handed out, with what the connection still
  -- keeps, is the first records of the other end's log, as many as the reader has counted, in
  -- order and unchanged. And the log is what the Writes sealed: each Write left the world in
  -- which its records of the log, sealed with its key under their numbers there, were put on its
  -- connection one after the other until one failed.
  pub crossed-Reads :
      AeadLaws P
      → (a b a' b' : Conn P) (out_a out_b : Bytes) (at_a : Reads P a out_a a')
        (at_b : Reads P b out_b b')
      → AreCrossed P a b
      → (a.read_buf ≡ []) × (b.read_buf ≡ [])
      → AreIntact (records_of P at_a) a.write_aead at_b
      → AreIntact (records_of P at_b) b.write_aead at_a
      → (out_b ++ b'.read_buf ≡ concat (take b'.read_seq (records_of P at_a)))
        × (out_a ++ a'.read_buf ≡ concat (take a'.read_seq (records_of P at_b)))
        × AreSent P a.write_aead at_a
        × AreSent P b.write_aead at_b
  crossed-Reads aead a b a' b' out_a out_b at_a at_b crossed kept there back =
      let (wa, rb) = crossed.start_ab in
      let (wb, ra) = crossed.start_ba in
      let ka : IsCounted P a = record { reading = omega arith; writing = omega arith } in
      let kb : IsCounted P b = record { reading = omega arith; writing = omega arith } in
      (
        one_way aead a b a' b' out_a out_b at_a at_b crossed.a_to_b ka kb (rb, kept.1) there,
        one_way aead b a b' a' out_b out_a at_b at_a crossed.b_to_a kb ka (ra, kept.0) back,
        Reads-AreSent P at_a ka wa,
        Reads-AreSent P at_b kb wb,
      )
