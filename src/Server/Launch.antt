-- ===== src/Server/Launch.antt =====
-- `skynet_context_new` of dn/skynet-src/skynet_server.c: the launch of a service.
pub mod Runs
use dn_server.Common.{
  ℕ, zero, suc, ◌+◌, ◌-◌, ◌*◌, ◌/◌, ◌%◌, ◌^◌, Bool, true, false, List, [], ◌∷◌, Option, none, some,
  ltb, ◌==◌, if◌then◌else◌, ◌&&◌, ◌||◌, not, assert,
}
use dn_server.Context.{Context, Heap, context_grab, context_release, context_newsession}
use dn_server.Handle.{
  HandleStorage, write, grab, retire, register, registered, aborted, out_of_fuel,
}
use dn_server.Mq.{
  Message, MessageQueue, GlobalQueue, mq_push, mq_mark_release, mq_force_push, mq_release,
  mq_create, Released,
}
use dn_server.Server.{Node, set_queue, release_context}

-- How `skynet_context_new` ends: the service runs under its handle; or its last reference is gone
-- after an `init` that succeeded, and NULL is returned; or its queue is disposed of.
pub data Launched : Type 0 where
  launched : Node → ℕ → Launched
  ended : Node → Launched
  refused : Node → Released → Launched

-- The context before its registration. What its handle holds is not read.
abbrev pub new_context : Context
new_context = record {
  handle = 0;
  ref = 2;
  session_id = 0;
  forward = 0;
  init = false;
  endless = false;
}

-- `if (ret) { ctx->init = true; }` and `return ret`, with the queue pushed in between.
pub mark_launched : Node → ℕ → ℕ → Bool → GlobalQueue → Launched
mark_launched w ctx handle deleted g =
    if deleted
    then ended (record w { global = g })
    else launched
        (record w { global = g; heap = write w.heap ctx (record (w.heap ctx) { init = true }) })
        handle

-- The end of `skynet_context_new` after an `init` that returns 0. `skynet_context_release` returns
-- NULL where it has deleted the context.
pub start_context : Node → ℕ → ℕ → Option Launched
start_context w ctx handle =
    let (_, deleted) = context_release (w.heap ctx) in
    elim (release_context w ctx) [
      | none ↦ none
      | some w' ↦ elim (mq_force_push w'.global (w'.queues ctx)) [
        | none ↦ none
        | some g ↦ some (mark_launched w' ctx handle deleted g)
      ]
    ]

-- `_delete_context` of a context that `skynet_handle_retire` has deleted, if any.
pub delete_retired : Node → Option ℕ → Option Node
delete_retired w none = some w
delete_retired w (some ctx) = elim (mq_mark_release w.global (w.queues ctx)) [
  | none ↦ none
  | some (g, q) ↦ some (record w { global = g; queues = set_queue w ctx q })
]

-- The end of `skynet_context_new` after an `init` that fails.
pub refuse_context : Node → ℕ → ℕ → Option Launched
refuse_context w ctx handle = elim (release_context w ctx) [
  | none ↦ none
  | some w₁ ↦
      let (deleted, s, heap) = retire w₁.heap w₁.handles handle in
      elim (delete_retired (record w₁ { handles = s; heap = heap }) deleted) [
        | none ↦ none
        | some w₂ ↦ elim (mq_release w₂.global (w₂.queues ctx)) [
          | none ↦ none
          | some r ↦ some (refused w₂ r)
        ]
      ]
]

-- `skynet_context_new` with the addresses of the context and the queue. The module exists; its
-- `init` gets the node and returns it with whether it succeeded.
pub context_new : (Node → Node × Bool) → Node → ℕ → ℕ → Option Launched
context_new init w ctx addr = elim (register (write w.heap ctx new_context) w.handles ctx) [
  | aborted ↦ none
  | out_of_fuel ↦ none
  | registered (handle, s, heap) ↦
      let made = record w {
        handles = s;
        heap = heap;
        queues = set_queue w ctx (mq_create addr handle);
      } in
      let (w', ok) = init made in
      if ok then start_context w' ctx handle else refuse_context w' ctx handle
]
