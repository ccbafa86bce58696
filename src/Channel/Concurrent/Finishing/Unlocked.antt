-- ===== src/Channel/Concurrent/Finishing/Unlocked.antt =====
-- From wherever the goroutines in Read and Write (channel.go) are, both mutexes can be had.
use zwing.Base.{ℕ, ◌≡◌, false}
use zwing.Platform.{Platform}
use zwing.Channel.{Conn}
use zwing.Channel.Concurrent.{reads_now, writes_now}
use zwing.Channel.Concurrent.Schedule.{Goroutines, Sequential}
use zwing.Channel.Concurrent.Finishing.{Onward}

module _ (P : Platform) where
  -- Steps to where nobody is in Read or Write, and `conn` is what whole calls leave.
  pub record Unlocked (c : Conn P) (s : Goroutines P) : Type 0 where
    pub t : Goroutines P
    pub steps : Onward P s t
    pub mutexes : (t.mem.read_locked ≡ false) × (t.mem.write_locked ≡ false)
    pub no_reader : (i : ℕ) → reads_now (t.readers i) ≡ false
    pub no_writer : (i : ℕ) → writes_now P (t.writers i) ≡ false
    pub whole : Sequential P c t.mem.events t.mem.conn
