-- ===== src/Config.antt =====
-- config.go. A nil pointer is `none`.
use zwing.Base.{ℕ, Option}
use zwing.Platform.{Platform}
use zwing.Identity.{Identity, IdentityPublic}

abbrev pub default_port : ℕ
default_port = 9999

pub record Config (P : Platform) : Type 0 where
  pub local_identity : Option (Identity P)
  pub expected_remote : Option (IdentityPublic P)
  -- in nanoseconds; a negative duration has the effect of zero
  pub handshake_timeout : ℕ
