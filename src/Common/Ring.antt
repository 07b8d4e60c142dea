-- ===== src/Common/Ring.antt =====
-- An index into a ring of cells.
use Prim.Native.Nat.{ℕ, ◌+◌, ◌-◌, ◌%◌, ◌<◌}
use mathlib.Core.Path.{◌≡◌}
use native.Mathlib.Omega.{arith}
use native.Mathlib.Nat.{mod-eq_of_lt, mod-eq-sub-mod}
use native.Mathlib.Decide.{dec_lt}
use dn_server.Common.Tests.{ltb, if◌then◌else◌}

-- An index that may have run past the end of the array, once.
abbrev pub wrap : ℕ → ℕ → ℕ
wrap cap i = if ltb i cap then i else i - cap

pub mod-wrap : (h i cap : ℕ) → h < cap → i < cap → (h + i) % cap ≡ wrap cap (h + i)
mod-wrap h i cap hh hi = elim (dec_lt (h + i) cap) [
  | yes p ↦ ground (arith, mod-eq_of_lt p)
  | no p ↦ ground (
    arith,
    mod-eq-sub-mod {n = h + i} {m = cap} (omega arith),
    mod-eq_of_lt {n = h + i - cap} {m = cap} (omega arith),
  )
]
