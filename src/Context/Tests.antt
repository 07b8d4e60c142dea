-- ===== src/Context/Tests.antt =====
-- The theorems on sessions at an input.
use dn_server.Common.{◌+◌, ◌-◌, ◌%◌, ◌^◌, ◌<◌, ◌≡◌, ◌≢◌, arith, false}
use dn_server.Context.{Context}
use dn_server.Context.Session.{nth_session, nth_session-ne}

abbrev worn : Context
worn = record {
  handle = 1;
  ref = 1;
  session_id = 2 ^ 31 - 1;
  forward = 0;
  init = false;
  endless = false;
}

nth_session-ne_example :
    (nth_session worn 0 ≢ nth_session worn 7)
    × (nth_session worn 0 < 2 ^ 31)
    × (nth_session worn 0 ≡ 0 → (worn.session_id + 0) % 2 ^ 31 ≡ 2 ^ 31 - 1)
    × ((worn.session_id + 0) % 2 ^ 31 ≡ 2 ^ 31 - 1 → nth_session worn 0 ≡ 0)
nth_session-ne_example = nth_session-ne worn 0 7 (omega arith) (omega arith)
