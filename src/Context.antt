-- ===== src/Context.antt =====
-- The fields of `struct skynet_context` in dn/skynet-src/skynet_server.c that the model needs, and
-- the functions that change one context alone. A context is named by its address.
mod Tests
pub mod Session
use dn_server.Common.{ℕ, ◌+◌, ◌-◌, ◌%◌, ◌^◌, Bool, true, false, ◌==◌}

-- `struct skynet_context`; `ref` and `session_id` are the bit patterns of an `int`.
pub record Context : Type 0 where
  pub handle : ℕ
  pub ref : ℕ
  pub session_id : ℕ
  pub forward : ℕ
  pub init : Bool
  pub endless : Bool

-- All contexts, by address.
abbrev pub Heap : Type 0
Heap = ℕ → Context

-- `skynet_context_grab`
abbrev pub context_grab : Context → Context
context_grab c = record c { ref = (c.ref + 1) % 2 ^ 32 }

-- `skynet_context_release`: the context, and whether `_delete_context` runs.
abbrev pub context_release : Context → Context × Bool
context_release c = let ref = (c.ref + 2 ^ 32 - 1) % 2 ^ 32 in (record c { ref = ref }, ref == 0)

-- `skynet_context_init`
abbrev pub context_init : Context → ℕ → Context
context_init c handle = record c { handle = handle }

-- `skynet_context_newsession`: the context and the session.
unfoldable pub context_newsession : Context → Context × ℕ
context_newsession c =
    let id = (c.session_id + 1) % 2 ^ 32 in (record c { session_id = id }, id % 2 ^ 31)
