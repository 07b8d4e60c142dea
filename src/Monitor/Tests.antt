-- ===== src/Monitor/Tests.antt =====
-- A check during a dispatch to context 102.
use dn_server.Common.{◌≡◌, refl, [], arith}
use dn_server.Server.Tests.{node, node-IsLive}
use dn_server.Monitor.{Monitor, monitor_new, monitor_trigger, triggers, monitor_check}
use dn_server.Monitor.Alarm.{Checks, monitor_check-Checks}

abbrev busy : Monitor
busy = record { version = 1; check_version = 1; source = 1; destination = 2 }

busy_after : monitor_trigger monitor_new 1 2 ≡ record busy { check_version = 0 }
unfolding monitor_trigger monitor_new
busy_after = refl

monitor_check-Checks_example : Checks node busy [] (monitor_check node (triggers [] busy))
monitor_check-Checks_example =
    monitor_check-Checks node busy [] node-IsLive refl (omega arith) (omega arith)
