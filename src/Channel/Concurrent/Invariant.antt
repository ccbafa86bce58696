-- ===== src/Channel/Concurrent/Invariant.antt =====
-- What goroutines in Read and Write of one connection (channel.go) keep.
pub mod Reading
pub mod Ending
pub mod Writing
pub mod Numbering
pub mod Rounds
pub mod Returns
use zwing.Base.{min, copy_into, ok, ◌%◌, ◌^◌}
use zwing.Base.{
  ℕ, ◌+◌, ◌<◌, ◌≤◌, ◌≡◌, ◌≢◌, Bytes, some, [], ◌∷◌, List, length, take, Outcome, Option,
}
use zwing.Platform.{Platform}
use zwing.Aead.{nonce_for}
use zwing.Channel.{Conn, read_raw, max_seq, max_plain}
use zwing.Channel.Integrity.{get_elem?}
use zwing.Channel.Concurrent.{
  ReadAt, outside, looking, taking, copied, waiting, got, checked, plain, counting, counted,
  leaving, WriteAt, away, head, tested, sealed, loaded, sending, done, reads_now, writes_now, Seal,
  Event, Shared,
}
use zwing.Channel.Concurrent.Schedule.{Sequential}
use zwing.Channel.Concurrent.Guarded.{IsGuarded}

-- The seals used the numbers from `first` on, each once.
abbrev pub AreNumbered : ℕ → List Seal → Type 0
AreNumbered first seals =
    (k : ℕ) (x : Seal) → get_elem? seals k ≡ some x → x.nonce ≡ nonce_for (first + k)

-- Between two rounds: `seq` is the counter, `spec` that of the specification, and `made` the number
-- of the next seal.
pub record IsSettled (seq spec made : ℕ) : Type 0 where
  pub level : seq ≡ spec
  pub counted : made ≡ seq

-- In a round whose number is not the last.
pub record IsRound (number : ℕ) (rest : Bytes) : Type 0 where
  pub some_bytes : 0 < length rest
  pub room : number ≢ max_seq

module _ (P : Platform) where
  -- readFrame on `raw` returned this, and nothing is left to hand out.
  pub record IsHeard (raw : Option P.RawConn) (buf : Bytes) (o : Outcome Bytes) : Type 0 where
    pub none_left : length buf ≡ 0
    pub w : P.World
    pub came : (read_raw P raw w).0 ≡ o

  -- A frame that opens to a text under a number that is not the last.
  pub record IsOpened (raw : Option P.RawConn) (buf : Bytes) (key : P.Aead) (seq : ℕ) (text : Bytes)
      : Type 0 where
    pub frame : Bytes
    pub heard : IsHeard raw buf (ok frame)
    pub room : seq ≢ max_seq
    pub opens : P.aead_open key (nonce_for seq) frame [] ≡ some text

  -- What a goroutine in Read knows of the specification's connection, and of the counter.
  unfoldable pub FitsRead : Conn P → ℕ → ReadAt → Type 0
  FitsRead spec seq outside = Unit
  FitsRead spec seq (looking b) = seq ≡ spec.read_seq
  FitsRead spec seq (taking b) = (seq ≡ spec.read_seq) × (0 < length spec.read_buf)
  FitsRead spec seq (copied b buffer n) =
      (seq ≡ spec.read_seq)
      × (0 < length spec.read_buf)
      × (buffer ≡ copy_into b spec.read_buf)
      × (n ≡ min (length b) (length spec.read_buf))
  FitsRead spec seq (waiting b) = (seq ≡ spec.read_seq) × (length spec.read_buf ≡ 0)
  FitsRead spec seq (got b o) = (seq ≡ spec.read_seq) × IsHeard spec.raw spec.read_buf o
  FitsRead spec seq (checked b frame) =
      (seq ≡ spec.read_seq) × IsHeard spec.raw spec.read_buf (ok frame) × (spec.read_seq ≢ max_seq)
  FitsRead spec seq (plain b text) =
      (seq ≡ spec.read_seq) × IsOpened spec.raw spec.read_buf spec.read_aead spec.read_seq text
  FitsRead spec seq (counting b text n) =
      (seq ≡ spec.read_seq)
      × IsOpened spec.raw spec.read_buf spec.read_aead spec.read_seq text
      × (n ≡ seq)
  FitsRead spec seq (counted b text) =
      (seq ≡ (spec.read_seq + 1) % 2 ^ 64)
      × IsOpened spec.raw spec.read_buf spec.read_aead spec.read_seq text
  FitsRead spec seq leaving = seq ≡ spec.read_seq

  abbrev pub ciphered : P.Aead → ℕ → Bytes → Bytes
  ciphered key seq rest = P.aead_seal key (nonce_for seq) (take max_plain rest) []

  -- What a goroutine in Write knows of the counter.
  unfoldable pub FitsWrite : P.Aead → ℕ → ℕ → ℕ → WriteAt P → Type 0
  FitsWrite key seq spec made away = Unit
  FitsWrite key seq spec made (head _ _) = IsSettled seq spec made
  FitsWrite key seq spec made (tested _ rest) = IsSettled seq spec made × IsRound spec rest
  FitsWrite key seq spec made (sealed _ rest cipher) =
      (seq ≡ spec) × (made ≡ seq + 1) × IsRound spec rest × (cipher ≡ ciphered key spec rest)
  FitsWrite key seq spec made (loaded _ rest cipher n) =
      (seq ≡ spec)
      × (made ≡ seq + 1)
      × IsRound spec rest
      × (cipher ≡ ciphered key spec rest)
      × (n ≡ seq)
  FitsWrite key seq spec made (sending _ rest cipher) =
      (seq ≡ spec + 1) × (made ≡ seq) × IsRound spec rest × (cipher ≡ ciphered key spec rest)
  FitsWrite key seq spec made (done _) = IsSettled seq spec made

  -- `spec` is what whole calls have left, and the connection differs in its counters alone.
  pub record Core (c conn spec : Conn P) (seals : List Seal) (events : List (Event P))
      : Type 0 where
    pub run : Sequential P c events spec
    pub agree : conn ≡ record spec { read_seq = conn.read_seq; write_seq = conn.write_seq }
    pub numbered : AreNumbered c.write_seq seals
    pub few : c.write_seq + length seals ≤ max_seq
    pub small : spec.write_seq ≤ max_seq

  pub record Inv (c : Conn P) (m : Shared P) (readers : ℕ → ReadAt) (writers : ℕ → WriteAt P)
      : Type 0 where
    pub spec : Conn P
    pub core : Core c m.conn spec m.seals m.events
    pub reading :
        IsGuarded reads_now
          (FitsRead spec m.conn.read_seq)
          (m.conn.read_seq ≡ spec.read_seq)
          m.read_locked
          readers
    pub writing :
        let made = c.write_seq + length m.seals in
        IsGuarded
          (writes_now P)
          (FitsWrite m.conn.write_aead m.conn.write_seq spec.write_seq made)
          (IsSettled m.conn.write_seq spec.write_seq made)
          m.write_locked
          writers
