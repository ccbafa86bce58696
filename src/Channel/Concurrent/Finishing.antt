-- ===== src/Channel/Concurrent/Finishing.antt =====
-- No deadlock among goroutines in Read and Write of one connection (channel.go): whoever holds a
-- mutex can go on until it is free.
pub mod Readers
pub mod Writers
pub mod Unlocked
use zwing.Base.{ℕ, ◌≡◌, sym, subst, ◌∙◌, false}
use zwing.Platform.{Platform}
use zwing.Channel.Concurrent.{ReadAt, outside, WriteAt, away, Shared, ReadMove, WriteMove}
use zwing.Channel.Concurrent.Schedule.{Goroutines, Step, reader, writer}
use zwing.Channel.Concurrent.Guarded.{update}

module _ (P : Platform) where
  pub data Onward : Goroutines P → Goroutines P → Type 0 where
    stay : {s : Goroutines P} → Onward s s
    on : {s t u : Goroutines P} → Step P s t → Onward t u → Onward s u

  -- Steps of goroutine `i` that end outside Read.
  pub record ReadDone (s : Goroutines P) : Type 0 where
    pub t : Goroutines P
    pub steps : Onward s t
    pub free : t.mem.read_locked ≡ false
    pub other : t.mem.write_locked ≡ s.mem.write_locked

  abbrev pub read_to : Goroutines P → ℕ → Shared P → ReadAt → Goroutines P
  read_to s i m p = record s { mem = m; readers = update s.readers i p }

  -- One step before others.
  pub read_first :
      (s : Goroutines P) (i : ℕ) (p p' : ReadAt) (m : Shared P)
      → s.readers i ≡ p
      → ReadMove P s.mem p m p'
      → m.write_locked ≡ s.mem.write_locked
      → ReadDone (read_to s i m p')
      → ReadDone s
  read_first s i p p' m e move same rest = record {
    t = rest.t;
    steps = on (reader i (subst (λ q. ReadMove P s.mem q m p') (sym e) move)) rest.steps;
    free = rest.free;
    other = rest.other ∙ same;
  }

  pub record WriteDone (s : Goroutines P) : Type 0 where
    pub t : Goroutines P
    pub steps : Onward s t
    pub free : t.mem.write_locked ≡ false
    pub other : t.mem.read_locked ≡ s.mem.read_locked

  abbrev pub write_to : Goroutines P → ℕ → Shared P → WriteAt P → Goroutines P
  write_to s i m p = record s { mem = m; writers = update s.writers i p }

  pub write_first :
      (s : Goroutines P) (i : ℕ) (p p' : WriteAt P) (m : Shared P)
      → s.writers i ≡ p
      → WriteMove P s.mem p m p'
      → m.read_locked ≡ s.mem.read_locked
      → WriteDone (write_to s i m p')
      → WriteDone s
  write_first s i p p' m e move same rest = record {
    t = rest.t;
    steps = on (writer i (subst (λ q. WriteMove P s.mem q m p') (sym e) move)) rest.steps;
    free = rest.free;
    other = rest.other ∙ same;
  }
