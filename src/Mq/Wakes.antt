-- ===== src/Mq/Wakes.antt =====
-- Which push brings a queue to the global queue, in dn/skynet-src/skynet_mq.c.
use dn_server.Common.{
  ◌≡◌, inl, inr, Bool, true, false, Option, none, some, arith, ◌==◌, ◌&&◌, if◌then◌else◌,
  Bool-cases,
}
use dn_server.Mq.{
  Message, MessageQueue, GlobalQueue, globalmq_push, mq_in_global, mq_locked, expand_queue,
  room_before_head, write_head, unlock_session, pushhead, push_tail, wake, is_unlock, mq_push,
}

-- The message that the lock waits for wakes a queue that is locked at rest, any other wakes a
-- queue that is at rest without a lock.
abbrev pub wakes : MessageQueue → Message → Bool
wakes q m =
    if is_unlock q m then q.in_global == mq_locked else q.lock_session == 0 && q.in_global == 0

-- A queue that is woken goes to the end of the global queue, once, and knows it; the global queue
-- stays as it is otherwise. The address, the handle and the mark of the queue stay.
abbrev pub Wakes :
    GlobalQueue → MessageQueue → Message → Option (GlobalQueue × MessageQueue) → Type 0
Wakes g q m none = Unit
Wakes g q m (some (g', q')) =
    (g' ≡ (if wakes q m then globalmq_push g q.addr else g))
    × (q'.in_global ≡ (if wakes q m then mq_in_global else q.in_global))
    × (q'.addr ≡ q.addr)
    × (q'.handle ≡ q.handle)
    × (q'.release ≡ q.release)

unlock-Wakes :
    (g : GlobalQueue) (q : MessageQueue) (m : Message)
    → is_unlock q m ≡ true
    → Wakes g q m (unlock_session g (write_head (room_before_head q) m))
unfolding unlock_session write_head room_before_head expand_queue
unlock-Wakes g q m u = ground arith

wake-Wakes :
    (g : GlobalQueue) (q : MessageQueue) (m : Message)
    → is_unlock q m ≡ false
    → Wakes g q m (some (wake g (push_tail q m)))
unfolding wake push_tail expand_queue
wake-Wakes g q m u = ground arith

pub mq_push-Wakes : (g : GlobalQueue) (q : MessageQueue) (m : Message) → Wakes g q m (mq_push g q m)
unfolding mq_push pushhead
mq_push-Wakes g q m = elim (Bool-cases (is_unlock q m)) [
  | inl u ↦ let w = unlock-Wakes g q m u in rw (u, mq_push) w
  | inr u ↦ let w = wake-Wakes g q m u in rw (u, mq_push) w
]
