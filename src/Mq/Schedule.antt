-- ===== src/Mq/Schedule.antt =====
-- Scheduling: what the threads do to one queue, as steps, and that one worker at most serves it.
-- The steps are those of dn/skynet-src/skynet_server.c: `skynet_context_message_dispatch` is
-- `take`, then `pop_empty` or `pop_message`, then `finish`; a callback may call "LOCK" before.
-- `skynet_context_new` is `launch`; `send` is `skynet_context_push` on any thread. The other
-- queues enter and leave the global queue freely. A release of the service is not among the steps.
-- Each push to the global queue finds a free cell: fewer than 65535 queues wait.
pub mod Steps
pub mod Safety
use dn_server.Common.{
  ℕ, zero, suc, ◌+◌, ◌<◌, ◌≡◌, ◌≢◌, List, [], ◌∷◌, Option, none, some, ◌==◌, if◌then◌else◌, ◌++◌,
  arith,
}
use dn_server.Mq.{
  Message, MessageQueue, GlobalQueue, max_global_mq, globalmq_push, globalmq_pop, mq_create, mq_pop,
  mq_push, mq_lock, mq_force_push, mq_pushglobal,
}
use dn_server.Mq.Global.{size}

-- One queue among the others, and how many threads are where in its service:
-- in `skynet_context_new`, between the pop of the queue and that of a message, or in the callback.
pub record System : Type 0 where
  pub global : GlobalQueue
  pub queue : MessageQueue
  pub launching : ℕ
  pub taken : ℕ
  pub running : ℕ

abbrev pub HasRoom : System → Type 0
HasRoom s = size s.global + 1 < max_global_mq

pub data Step (s : System) : System → Type 0 where
  other_push :
      (a : ℕ)
      → a ≢ s.queue.addr
      → HasRoom s
      → Step s (record s { global = globalmq_push s.global a })
  other_pop :
      (a : ℕ) (g : GlobalQueue)
      → globalmq_pop s.global ≡ some (a, g)
      → a ≢ s.queue.addr
      → Step s (record s { global = g })
  launch :
      (l : ℕ) (g : GlobalQueue)
      → s.launching ≡ suc l
      → HasRoom s
      → mq_force_push s.global s.queue ≡ some g
      → Step s (record s { global = g; launching = l })
  take :
      (g : GlobalQueue)
      → globalmq_pop s.global ≡ some (s.queue.addr, g)
      → Step s (record s { global = g; taken = suc s.taken })
  pop_empty :
      (t : ℕ) (q : MessageQueue)
      → s.taken ≡ suc t
      → mq_pop s.queue ≡ (none, q)
      → Step s (record s { queue = q; taken = t })
  pop_message :
      (t : ℕ) (m : Message) (q : MessageQueue)
      → s.taken ≡ suc t
      → mq_pop s.queue ≡ (some m, q)
      → Step s (record s { queue = q; taken = t; running = suc s.running })
  send :
      (m : Message) (g : GlobalQueue) (q : MessageQueue)
      → HasRoom s
      → mq_push s.global s.queue m ≡ some (g, q)
      → Step s (record s { global = g; queue = q })
  lock :
      (r session : ℕ) (q : MessageQueue)
      → s.running ≡ suc r
      → session ≢ 0
      → mq_lock s.queue session ≡ some q
      → Step s (record s { queue = q })
  finish :
      (r : ℕ) (g : GlobalQueue) (q : MessageQueue)
      → s.running ≡ suc r
      → HasRoom s
      → mq_pushglobal s.global s.queue ≡ some (g, q)
      → Step s (record s { global = g; queue = q; running = r })

pub data Reach (s : System) : System → Type 0 where
  here : Reach s s
  next : {t u : System} → Reach s t → Step t u → Reach s u

-- A new service, whose queue `skynet_mq_create` has made and no thread has entered.
unfoldable pub start : GlobalQueue → ℕ → ℕ → System
start g addr handle = record {
  global = g;
  queue = mq_create addr handle;
  launching = 1;
  taken = 0;
  running = 0;
}

-- How often an address stands in a list.
abbrev pub count : ℕ → List ℕ → ℕ
count a [] = 0
count a (b ∷ bs) = if b == a then suc (count a bs) else count a bs

pub count-append_one :
    (a b : ℕ) (bs : List ℕ) → count a (bs ++ b ∷ []) ≡ count a bs + (if b == a then 1 else 0)
count-append_one a b [] = ground arith
count-append_one a b (c ∷ bs) = ground (arith, count-append_one a b bs)
