-- ===== src/Base/Lock.antt =====
-- `tokio::sync::RwLock`, which is not part of the repository: its documented exclusion rules, as
-- seen by one task that nobody else disturbs.
use mathlib.Core.Path.{◌≡◌, refl}
use mathlib.Core.Option.{Option, none, some}

-- `read` and `write` give the lock held by the caller, or `none` where the call waits for a guard
-- that is still alive.
pub record RwLock : Type 1 where
  pub Lock : Type 0
  pub unlocked : Lock
  pub read : Lock → Option Lock
  pub write : Lock → Option Lock

-- Guards exclude one another as the documentation of `RwLock` says: a free lock is given at
-- once, and a writer waits for every guard.
pub record RwLockLaws (L : RwLock) : Type 0 where
  pub read_held : L.Lock
  pub write_held : L.Lock
  pub read_unlocked : L.read L.unlocked ≡ some read_held
  pub write_unlocked : L.write L.unlocked ≡ some write_held
  pub write_read_held : L.write read_held ≡ none
  pub write_write_held : L.write write_held ≡ none

-- A lock that counts its guards meets the rules.
pub data Held : Type 0 where
  free reading writing : Held

abbrev held_read : Held → Option Held
held_read free = some reading
held_read reading = some reading
held_read writing = none

abbrev held_write : Held → Option Held
held_write free = some writing
held_write reading = none
held_write writing = none

abbrev pub counting : RwLock
counting = record { Lock = Held; unlocked = free; read = held_read; write = held_write }

abbrev pub counting_laws : RwLockLaws counting
counting_laws = record {
  read_held = reading;
  write_held = writing;
  read_unlocked = refl;
  write_unlocked = refl;
  write_read_held = refl;
  write_write_held = refl;
}
