-- ===== src/Channel/Concurrent/Schedule.antt =====
-- Goroutines in Read and Write of one connection (channel.go), in whatever order their steps come,
-- and whole calls one after the other.
use zwing.Base.{ℕ, ◌++◌, Bytes, false, List, [], ◌∷◌}
use zwing.Platform.{Platform}
use zwing.Channel.{Conn, read, write}
use zwing.Channel.Concurrent.{
  ReadAt, outside, WriteAt, away, Event, read_returned, round_returned, Shared, ReadMove, WriteMove,
}
use zwing.Channel.Concurrent.Guarded.{update}

module _ (P : Platform) where
  pub record Goroutines : Type 0 where
    pub mem : Shared P
    pub readers : ℕ → ReadAt
    pub writers : ℕ → WriteAt P

  -- The scheduler picks a goroutine.
  pub data Step (s : Goroutines) : Goroutines → Type 0 where
    reader :
        (i : ℕ) {m : Shared P} {p : ReadAt}
        → ReadMove P s.mem (s.readers i) m p
        → Step s (record s { mem = m; readers = update s.readers i p })
    writer :
        (i : ℕ) {m : Shared P} {p : WriteAt P}
        → WriteMove P s.mem (s.writers i) m p
        → Step s (record s { mem = m; writers = update s.writers i p })

  -- A connection that no goroutine is using.
  abbrev pub unused : Conn P → Goroutines
  unused c = record {
    mem = record { conn = c; read_locked = false; write_locked = false; seals = []; events = [] };
    readers = λ i. outside;
    writers = λ i. away;
  }

  pub data Reach (c : Conn P) : Goroutines → Type 0 where
    start : Reach c (unused c)
    later : {s t : Goroutines} → Reach c s → Step s t → Reach c t

  -- The specification: whole calls of Read, and of Write for one record, one after the other.
  pub data Sequential (c : Conn P) : List (Event P) → Conn P → Type 0 where
    begin : Sequential c [] c
    reads :
        {log : List (Event P)} {d : Conn P}
        → Sequential c log d
        → (b : Bytes) (w : P.World)
        → Sequential c (log ++ (read_returned b (read P d b w).0 ∷ [])) (read P d b w).1
    writes :
        {log : List (Event P)} {d : Conn P}
        → Sequential c log d
        → (text : Bytes) (w : P.World)
        → Sequential c (log ++ (round_returned text (write P d text w).0 ∷ [])) (write P d text w).1
