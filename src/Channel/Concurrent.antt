-- ===== src/Channel/Concurrent.antt =====
-- channel.go: Read and Write of one connection in any number of goroutines. A step takes or leaves a
-- mutex, loads or stores a field of the connection, or is a whole call of readFrame or writeFrame
-- (two calls of the connection below), which may find any state. A goroutine that reads and writes is one of either.
pub mod Schedule
pub mod Guarded
pub mod Atomic
pub mod Invariant
pub mod Safety
pub mod Finishing
use zwing.Base.{min, copy_into, Error, ciphertext_corrupted, if◌then◌else◌, ltb}
use zwing.Base.{
  ℕ, ◌+◌, ◌%◌, ◌^◌, ◌<◌, ◌≡◌, ◌≢◌, Bytes, Bool, true, false, none, some, List, [], ◌∷◌, ◌++◌,
  length, take, drop, Outcome, ok, err, panic, sequence_exhausted,
}
use zwing.Platform.{Platform}
use zwing.Aead.{nonce_for}
use zwing.Channel.{
  Conn, ReadReturn, WriteReturn, read, write, read_raw, write_raw, read_failed, max_seq, max_plain,
}
use zwing.Channel.Concurrent.Guarded.{update}

-- Where a goroutine stands in Read.
pub data ReadAt : Type 0 where
  outside : ReadAt
  looking : (b : Bytes) → ReadAt  -- before the test of readBuf
  taking : (b : Bytes) → ReadAt  -- after it, with bytes left
  copied : (b buffer : Bytes) (n : ℕ) → ReadAt  -- before the rest of readBuf is stored
  waiting : (b : Bytes) → ReadAt  -- before readFrame
  got : (b : Bytes) (o : Outcome Bytes) → ReadAt  -- after readFrame
  checked : (b frame : Bytes) → ReadAt  -- after the test of readSeq
  plain : (b text : Bytes) → ReadAt  -- after Open, before readSeq is loaded
  counting : (b text : Bytes) (seq : ℕ) → ReadAt  -- before it is stored
  counted : (b text : Bytes) → ReadAt  -- before the rest of the text is stored
  leaving : ReadAt  -- before the deferred Unlock

-- Between Lock and Unlock of readMu.
abbrev pub reads_now : ReadAt → Bool
reads_now outside = false
reads_now _ = true

-- A call of Seal: its nonce and its text.
pub record Seal : Type 0 where
  pub nonce : Bytes
  pub text : Bytes

module _ (P : Platform) where
  -- Where a goroutine stands in Write, with `written` and `b[written:]`.
  pub data WriteAt : Type 0 where
    away : WriteAt
    head : (written : ℕ) (rest : Bytes) → WriteAt  -- the head of the loop
    tested : (written : ℕ) (rest : Bytes) → WriteAt  -- after the test of writeSeq
    sealed : (written : ℕ) (rest cipher : Bytes) → WriteAt  -- before writeSeq is loaded
    loaded : (written : ℕ) (rest cipher : Bytes) (seq : ℕ) → WriteAt  -- before it is stored
    sending : (written : ℕ) (rest cipher : Bytes) → WriteAt  -- before writeFrame
    done : (r : Outcome (WriteReturn P)) → WriteAt  -- before the deferred Unlock

  -- Between Lock and Unlock of writeMu.
  abbrev pub writes_now : WriteAt → Bool
  writes_now away = false
  writes_now _ = true

  -- What a call returned: Read, or one round of the loop of Write.
  pub data Event : Type 0 where
    read_returned : (b : Bytes) (r : Outcome (ReadReturn P)) → Event
    round_returned : (text : Bytes) (r : Outcome (WriteReturn P)) → Event

  -- What the goroutines share: the connection and its mutexes. The seals and the events are a
  -- record of what they did.
  pub record Shared : Type 0 where
    pub conn : Conn P
    pub read_locked : Bool
    pub write_locked : Bool
    pub seals : List Seal
    pub events : List Event

  -- Read has a result, and leaves the connection so.
  abbrev pub read_done : Shared → Bytes → Outcome (ReadReturn P) → Conn P → Shared
  read_done m b r c = record m { conn = c; events = m.events ++ (read_returned b r ∷ []) }

  -- What a text leaves in readBuf.
  abbrev pub kept_rest : Conn P → Bytes → Bytes → Conn P
  kept_rest c b text =
      let n = min (length b) (length text) in
      record c { read_buf = if ltb n (length text) then drop n text else c.read_buf }

  -- One step of Read, in the world that it finds.
  pub data ReadMove (m : Shared) : ReadAt → Shared → ReadAt → Type 0 where
    lock :
        (b : Bytes)
        → m.read_locked ≡ false
        → ReadMove m outside (record m { read_locked = true }) (looking b)
    more : {b : Bytes} → 0 < length m.conn.read_buf → ReadMove m (looking b) m (taking b)
    copy :
        {b : Bytes}
        → ReadMove m
            (taking b)
            m
            (copied b (copy_into b m.conn.read_buf) (min (length b) (length m.conn.read_buf)))
    take_rest :
        {b buffer : Bytes} {n : ℕ} (w : P.World)
        → ReadMove m
            (copied b buffer n)
            (read_done m b
              (ok (record { buffer = buffer; count = n; error = none }))
              (record m.conn { read_buf = drop n m.conn.read_buf }))
            leaving
    empty : {b : Bytes} → length m.conn.read_buf ≡ 0 → ReadMove m (looking b) m (waiting b)
    heard : {b : Bytes} (w : P.World) → ReadMove m (waiting b) m (got b (read_raw P m.conn.raw w).0)
    failed :
        {b : Bytes} {e : Error}
        → ReadMove m (got b (err e)) (read_done m b (ok (read_failed P b e)) m.conn) leaving
    died :
        {b : Bytes} {p : _} → ReadMove m (got b (panic p)) (read_done m b (panic p) m.conn) leaving
    full :
        {b frame : Bytes}
        → m.conn.read_seq ≡ max_seq
        → ReadMove m
            (got b (ok frame))
            (read_done m b (ok (read_failed P b sequence_exhausted)) m.conn)
            leaving
    check :
        {b frame : Bytes}
        → m.conn.read_seq ≢ max_seq
        → ReadMove m (got b (ok frame)) m (checked b frame)
    corrupted :
        {b frame : Bytes}
        → P.aead_open m.conn.read_aead (nonce_for m.conn.read_seq) frame [] ≡ none
        → ReadMove m
            (checked b frame)
            (read_done m b (ok (read_failed P b ciphertext_corrupted)) m.conn)
            leaving
    opens :
        {b frame text : Bytes}
        → P.aead_open m.conn.read_aead (nonce_for m.conn.read_seq) frame [] ≡ some text
        → ReadMove m (checked b frame) m (plain b text)
    load : {b text : Bytes} → ReadMove m (plain b text) m (counting b text m.conn.read_seq)
    store :
        {b text : Bytes} {seq : ℕ}
        → ReadMove m
            (counting b text seq)
            (record m { conn = record m.conn { read_seq = (seq + 1) % 2 ^ 64 } })
            (counted b text)
    keep_rest :
        {b text : Bytes}
        → ReadMove m
            (counted b text)
            (read_done m b
              (ok (record {
                buffer = copy_into b text;
                count = min (length b) (length text);
                error = none;
              }))
              (kept_rest m.conn b text))
            leaving
    unlock : ReadMove m leaving (record m { read_locked = false }) outside

  -- How a round of Write goes on after writeFrame, and what it has returned by then.
  abbrev pub after_send : ℕ → Bytes → Outcome (Unit {0}) → WriteAt
  after_send written rest (ok u) =
      head (written + length (take max_plain rest)) (drop max_plain rest)
  after_send written rest (err e) = done (ok (record { count = written; error = some e }))
  after_send written rest (panic p) = done (panic p)

  abbrev pub round_return : Bytes → Outcome (Unit {0}) → Outcome (WriteReturn P)
  round_return text (ok u) = ok (record { count = length text; error = none })
  round_return text (err e) = ok (record { count = 0; error = some e })
  round_return text (panic p) = panic p

  abbrev pub round_done : Shared → Bytes → Outcome (Unit {0}) → Shared
  round_done m text o = record m {
    events = m.events ++ (round_returned text (round_return text o) ∷ []);
  }

  -- The round has no number.
  abbrev pub exhausted : Shared → Bytes → Shared
  exhausted m text =
      let r = ok (record { count = 0; error = some sequence_exhausted }) in
      record m { events = m.events ++ (round_returned text r ∷ []) }

  -- Seal, of the round's text.
  abbrev pub seal_of : ℕ → Bytes → Seal
  seal_of seq rest = record { nonce = nonce_for seq; text = take max_plain rest }

  abbrev pub sealed_with : P.Aead → Seal → Bytes
  sealed_with key x = P.aead_seal key x.nonce x.text []

  -- One step of Write, in the world that it finds.
  pub data WriteMove (m : Shared) : WriteAt → Shared → WriteAt → Type 0 where
    lock :
        (b : Bytes)
        → m.write_locked ≡ false
        → WriteMove m away (record m { write_locked = true }) (head 0 b)
    finish :
        {written : ℕ} {rest : Bytes}
        → rest ≡ []
        → WriteMove m (head written rest) m (done (ok (record { count = written; error = none })))
    exhaust :
        {written : ℕ} {rest : Bytes} (w : P.World)
        → 0 < length rest
        → m.conn.write_seq ≡ max_seq
        → WriteMove m
            (head written rest)
            (exhausted m (take max_plain rest))
            (done (ok (record { count = written; error = some sequence_exhausted })))
    test :
        {written : ℕ} {rest : Bytes}
        → 0 < length rest
        → m.conn.write_seq ≢ max_seq
        → WriteMove m (head written rest) m (tested written rest)
    seal :
        {written : ℕ} {rest : Bytes}
        → WriteMove m
            (tested written rest)
            (record m { seals = m.seals ++ (seal_of m.conn.write_seq rest ∷ []) })
            (sealed written rest (sealed_with m.conn.write_aead (seal_of m.conn.write_seq rest)))
    load :
        {written : ℕ} {rest cipher : Bytes}
        → WriteMove m (sealed written rest cipher) m (loaded written rest cipher m.conn.write_seq)
    store :
        {written : ℕ} {rest cipher : Bytes} {seq : ℕ}
        → WriteMove m
            (loaded written rest cipher seq)
            (record m { conn = record m.conn { write_seq = (seq + 1) % 2 ^ 64 } })
            (sending written rest cipher)
    send :
        {written : ℕ} {rest cipher : Bytes} (w : P.World)
        → WriteMove m
            (sending written rest cipher)
            (round_done m (take max_plain rest) (write_raw P m.conn.raw cipher w).0)
            (after_send written rest (write_raw P m.conn.raw cipher w).0)
    unlock :
        {r : Outcome (WriteReturn P)}
        → WriteMove m (done r) (record m { write_locked = false }) away
