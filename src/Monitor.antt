-- ===== src/Monitor.antt =====
-- dn/skynet-src/skynet_monitor.c: a worker tells its monitor before and after each dispatch, and the
-- monitor thread checks now and then whether anything has happened. The versions are the bit
-- patterns of an `int`. `skynet_error`, which logs the alarm, is left out.
pub mod Alarm
mod Tests
use dn_server.Common.{
  ℕ, ◌+◌, ◌%◌, ◌^◌, List, [], ◌∷◌, Option, none, some, ◌==◌, if◌then◌else◌, true,
}
use dn_server.Context.{Context}
use dn_server.Handle.{write, grab}
use dn_server.Server.{Node, release_context}

-- `struct skynet_monitor`
pub record Monitor : Type 0 where
  pub version : ℕ
  pub check_version : ℕ
  pub source : ℕ
  pub destination : ℕ

-- `skynet_monitor_new`
pub monitor_new : Monitor
monitor_new = record { version = 0; check_version = 0; source = 0; destination = 0 }

-- `skynet_monitor_trigger`
pub monitor_trigger : Monitor → ℕ → ℕ → Monitor
monitor_trigger sm source destination = record sm {
  source = source;
  destination = destination;
  version = (sm.version + 1) % 2 ^ 32;
}

-- The triggers of a worker, in order.
pub triggers : List (ℕ × ℕ) → Monitor → Monitor
triggers [] sm = sm
triggers ((source, destination) ∷ ts) sm = triggers ts (monitor_trigger sm source destination)

-- `skynet_context_endless` after the grab
pub mark_grabbed : Node → Option ℕ × (ℕ → Context) → Option Node
mark_grabbed w (none, heap) = some (record w { heap = heap })
mark_grabbed w (some ctx, heap) =
    release_context (record w { heap = write heap ctx (record (heap ctx) { endless = true }) }) ctx

-- `skynet_context_endless`
pub context_endless : Node → ℕ → Option Node
context_endless w handle = mark_grabbed w (grab w.heap w.handles handle)

-- `skynet_monitor_check`
pub monitor_check : Node → Monitor → Option (Node × Monitor)
monitor_check w sm =
    if sm.version == sm.check_version
    then if sm.destination == 0
      then some (w, sm)
      else elim (context_endless w sm.destination) [ none ↦ none | some w' ↦ some (w', sm) ]
    else some (w, record sm { check_version = sm.version })
