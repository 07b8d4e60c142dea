-- ===== src/Mq.antt =====
-- dn/skynet-src/skynet_mq.c: the message queue of a service and the global queue of queues.
-- The body of each `LOCK(q)` … `UNLOCK(q)` is one step, so the field `lock` is not modelled.
-- `int` fields that only count are natural numbers; `head - 1` is written with its test.
pub mod Contents
pub mod Tail
pub mod Head
pub mod Refine
pub mod Wakes
pub mod Global
pub mod Drop
pub mod Schedule
pub mod Tests
use dn_server.Common.{
  ℕ, zero, suc, ◌+◌, ◌-◌, ◌*◌, ◌/◌, ◌%◌, ◌^◌, Bool, true, false, List, [], ◌∷◌, ◌++◌, Option, none,
  some, ltb, leb, ◌==◌, if◌then◌else◌, ◌&&◌, not, assert, get_or, set, replicate,
}

-- `struct skynet_message`. `session` is the bit pattern of an `int`, `payload` the address `data`.
pub record Message : Type 0 where
  pub source : ℕ
  pub session : ℕ
  pub payload : ℕ
  pub sz : ℕ

-- `struct message_queue`. `addr` is the address of the struct, which the global queue stores.
pub record MessageQueue : Type 0 where
  pub addr : ℕ
  pub handle : ℕ
  pub cap : ℕ
  pub head : ℕ
  pub tail : ℕ
  pub release : Bool
  pub lock_session : ℕ
  pub in_global : ℕ
  pub queue : List Message

abbrev pub default_queue_size : ℕ
default_queue_size = 64

abbrev pub max_global_mq : ℕ
max_global_mq = 0x10000

abbrev pub mq_in_global : ℕ
mq_in_global = 1

abbrev pub mq_dispatching : ℕ
mq_dispatching = 2

abbrev pub mq_locked : ℕ
mq_locked = 3

-- `struct global_queue`: the two arrays have `max_global_mq` cells.
pub record GlobalQueue : Type 0 where
  pub head : ℕ
  pub tail : ℕ
  pub queue : ℕ → ℕ
  pub flag : ℕ → Bool

-- `GP(p)`
abbrev pub gp : ℕ → ℕ
gp p = p % max_global_mq

-- a write to one cell of an array
abbrev pub update {ℓ} : {A : Type ℓ} → (ℕ → A) → ℕ → A → ℕ → A
update f i v j = if j == i then v else f j

-- `skynet_globalmq_push`; the counters are `uint32_t`.
pub globalmq_push : GlobalQueue → ℕ → GlobalQueue
globalmq_push q mq = record {
  head = q.head;
  tail = (q.tail + 1) % 2 ^ 32;
  queue = update q.queue (gp q.tail) mq;
  flag = update q.flag (gp q.tail) true;
}

-- `skynet_globalmq_pop`, when no other thread moves `head` before the compare and swap.
pub globalmq_pop : GlobalQueue → Option (ℕ × GlobalQueue)
globalmq_pop q =
    if gp q.head == gp q.tail
    then none
    else if q.flag (gp q.head)
    then some (
      q.queue (gp q.head),
      record q { head = (q.head + 1) % 2 ^ 32; flag = update q.flag (gp q.head) false },
    )
    else none

-- `skynet_mq_init`
pub mq_init : (ℕ → ℕ) → GlobalQueue
mq_init garbage = record { head = 0; tail = 0; queue = garbage; flag = λ _. false }

-- What a cell of a new array holds is read nowhere: the theorems on the contents show it.
abbrev pub uninit : Message
uninit = record { source = 0; session = 0; payload = 0; sz = 0 }

-- `skynet_mq_create`
unfoldable pub mq_create : ℕ → ℕ → MessageQueue
mq_create addr handle = record {
  addr = addr;
  handle = handle;
  cap = default_queue_size;
  head = 0;
  tail = 0;
  release = false;
  lock_session = 0;
  in_global = mq_in_global;
  queue = replicate default_queue_size uninit;
}

-- `skynet_mq_pop`: `none` stands for the return value 1.
pub mq_pop : MessageQueue → Option Message × MessageQueue
mq_pop q = if q.head == q.tail then (none, record q { in_global = 0 }) else (
  some (get_or q.queue q.head uninit),
  record q { head = if leb q.cap (q.head + 1) then 0 else q.head + 1 },
)

-- The loop of `expand_queue`: cells `i`, `i + 1`, … of the new array, for the rounds left.
pub copy_cells : MessageQueue → ℕ → ℕ → List Message
copy_cells q zero i = []
copy_cells q (suc rounds) i =
    get_or q.queue ((q.head + i) % q.cap) uninit ∷ copy_cells q rounds (i + 1)

-- `expand_queue`
pub expand_queue : MessageQueue → MessageQueue
expand_queue q = record q {
  head = 0;
  tail = q.cap;
  cap = q.cap * 2;
  queue = copy_cells q q.cap 0 ++ replicate q.cap uninit;
}

-- `_pushhead` up to the write of the message: the queue with room before its head, and that index.
pub room_before_head : MessageQueue → MessageQueue × ℕ
unfolding expand_queue
room_before_head q =
    let head = if q.head == 0 then q.cap - 1 else q.head - 1 in
    if head == q.tail
    then (record (expand_queue q) { tail = q.cap - 1 }, q.cap * 2 - 1)
    else (q, head)

-- `q->queue[head] = *message; q->head = head;`
pub write_head : MessageQueue × ℕ → Message → MessageQueue
write_head (q, head) m = record q { queue = set q.queue head m; head = head }

-- The end of `_pushhead`: the lock is given back.
pub unlock_session : GlobalQueue → MessageQueue → Option (GlobalQueue × MessageQueue)
unlock_session g q =
    if q.in_global == mq_locked
    then some (globalmq_push g q.addr, record q { in_global = mq_in_global; lock_session = 0 })
    else assert (q.in_global == mq_dispatching) (some (g, record q { lock_session = 0 }))

-- `_pushhead`
pub pushhead : GlobalQueue → MessageQueue → Message → Option (GlobalQueue × MessageQueue)
pushhead g q m = unlock_session g (write_head (room_before_head q) m)

-- The write at the tail in `skynet_mq_push`, and the growth of a full queue.
pub push_tail : MessageQueue → Message → MessageQueue
push_tail q m =
    let tail = if leb q.cap (q.tail + 1) then 0 else q.tail + 1 in
    let q' = record q { queue = set q.queue q.tail m; tail = tail } in
    if q.head == tail then expand_queue q' else q'

-- The end of `skynet_mq_push`: a queue at rest enters the global queue, unless it is locked.
pub wake : GlobalQueue → MessageQueue → GlobalQueue × MessageQueue
wake g q =
    if q.lock_session == 0 && q.in_global == 0
    then (globalmq_push g q.addr, record q { in_global = mq_in_global })
    else (g, q)

-- the test of `skynet_mq_push` for the message that the lock waits for
abbrev pub is_unlock : MessageQueue → Message → Bool
is_unlock q m = not (q.lock_session == 0) && m.session == q.lock_session

-- `skynet_mq_push`
pub mq_push : GlobalQueue → MessageQueue → Message → Option (GlobalQueue × MessageQueue)
mq_push g q m = if is_unlock q m then pushhead g q m else some (wake g (push_tail q m))

-- `skynet_mq_lock`
pub mq_lock : MessageQueue → ℕ → Option MessageQueue
mq_lock q session = assert (q.lock_session == 0) (
    assert (q.in_global == mq_in_global)
      (some (record q { in_global = mq_dispatching; lock_session = session })))

-- `skynet_mq_force_push`
pub mq_force_push : GlobalQueue → MessageQueue → Option GlobalQueue
mq_force_push g q = assert (not (q.in_global == 0)) (some (globalmq_push g q.addr))

-- `skynet_mq_pushglobal`
pub mq_pushglobal : GlobalQueue → MessageQueue → Option (GlobalQueue × MessageQueue)
mq_pushglobal g q = assert (not (q.in_global == 0)) (
    let in_global = if q.in_global == mq_dispatching then mq_locked else q.in_global in
    if q.lock_session == 0
    then some (globalmq_push g q.addr, record q { in_global = mq_in_global })
    else some (g, record q { in_global = in_global }))

-- `skynet_mq_mark_release`
pub mq_mark_release : GlobalQueue → MessageQueue → Option (GlobalQueue × MessageQueue)
mq_mark_release g q = assert (not q.release) (
    some (
      (if q.in_global == mq_in_global then g else globalmq_push g q.addr),
      record q { release = true },
    ))

-- What `_drop_queue` does with the data of a message.
pub data Disposal : Type 0 where
  freed : ℕ → Disposal
  multicast_released : ℕ → Disposal

abbrev pub ptype_multicast : ℕ
ptype_multicast = 2

-- The body of the loop of `_drop_queue`: `int type = msg.sz >> HANDLE_REMOTE_SHIFT`.
pub dispose : Message → Option Disposal
dispose m =
    if m.sz / 2 ^ 24 % 2 ^ 32 == ptype_multicast
    then assert (m.sz % 2 ^ 24 == 0) (some (multicast_released m.payload))
    else some (freed m.payload)

-- The loop of `_drop_queue`, with the disposals in order. `none`: an assert fails or no fuel.
pub drop_loop : ℕ → MessageQueue → Option (List Disposal)
drop_loop zero q = none
drop_loop (suc fuel) q =
    let (r, q') = mq_pop q in
    elim r [
      | none ↦ some []
      | some m ↦ elim (dispose m) [
        | none ↦ none
        | some d ↦ elim (drop_loop fuel q') [ none ↦ none | some ds ↦ some (d ∷ ds) ]
      ]
    ]

-- How `skynet_mq_release` ends: the queue is dropped and freed, or it goes back.
pub data Released : Type 0 where
  dropped : List Disposal → Released
  requeued : GlobalQueue → Released

-- `skynet_mq_release`. A queue holds less than `cap` messages, which is enough fuel.
pub mq_release : GlobalQueue → MessageQueue → Option Released
mq_release g q =
    if q.release
    then elim (drop_loop q.cap q) [ none ↦ none | some ds ↦ some (dropped ds) ]
    else elim (mq_force_push g q) [ none ↦ none | some g' ↦ some (requeued g') ]
