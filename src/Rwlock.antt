-- ===== src/Rwlock.antt =====
-- dn/skynet-src/rwlock.h: the spinning lock of many readers or one writer around the handles.
-- A thread is where it stands in the code; each access to a field of the lock is one step, and
-- the steps of the threads come in any order. The counter `read` is the bit pattern of an `int`.
pub mod Exclusion
mod Tests
use dn_server.Common.{
  ℕ, zero, suc, ◌+◌, ◌-◌, ◌%◌, ◌^◌, Bool, true, false, List, [], ◌∷◌, ◌==◌, if◌then◌else◌, get_or,
  set,
}

-- `struct rwlock`
pub record Rwlock : Type 0 where
  pub write : Bool
  pub read : ℕ

-- `rwlock_init`
pub rwlock_init : Rwlock
rwlock_init = record { write = false; read = 0 }

-- The next access of a thread. In `rwlock_rlock` it reads `write`, increments `read`, reads `write`
-- again and takes the increment back or leaves; in `rwlock_wlock` it sets `write` and waits for the
-- readers. `reading` and `writing` are the sections under the lock, which end with an unlock.
pub data Thread : Type 0 where
  looking : Thread
  entering : Thread
  checking : Thread
  backing_off : Thread
  reading : Thread
  setting : Thread
  waiting : Thread
  writing : Thread
  finished : Thread

-- One access.
pub advance : Thread → Rwlock → Thread × Rwlock
advance looking l = (if l.write then looking else entering, l)
advance entering l = (checking, record l { read = (l.read + 1) % 2 ^ 32 })
advance checking l = (if l.write then backing_off else reading, l)
advance backing_off l = (looking, record l { read = (l.read + 2 ^ 32 - 1) % 2 ^ 32 })
advance reading l = (finished, record l { read = (l.read + 2 ^ 32 - 1) % 2 ^ 32 })
advance setting l = (if l.write then setting else waiting, record l { write = true })
advance waiting l = (if l.read == 0 then writing else waiting, l)
advance writing l = (finished, record l { write = false })
advance finished l = (finished, l)

pub record Threads : Type 0 where
  pub lock : Rwlock
  pub threads : List Thread

-- The access of the thread with the given number.
pub tick : ℕ → Threads → Threads
tick i s =
    let (thread, lock) = advance (get_or s.threads i finished) s.lock in
    record { lock = lock; threads = set s.threads i thread }

-- The accesses in the order of a schedule.
pub run : List ℕ → Threads → Threads
run [] s = s
run (i ∷ is) s = run is (tick i s)
