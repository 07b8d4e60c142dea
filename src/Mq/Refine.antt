-- ===== src/Mq/Refine.antt =====
-- The operations of skynet_mq.c on the list of messages that a queue holds.
use dn_server.Common.{
  ℕ, suc, ◌+◌, ◌<◌, ◌≡◌, refl, ap, ◌∙◌, ◌≢◌, inl, inr, true, false, ◌&&◌, [], ◌∷◌, ◌++◌, Option,
  none, some, arith, leb, ◌==◌, if◌then◌else◌, get_or, tabulate, tabulate-ext, Bool-cases, wrap,
}
use dn_server.Mq.{
  Message, MessageQueue, GlobalQueue, uninit, mq_pop, expand_queue, room_before_head, write_head,
  unlock_session, pushhead, push_tail, wake, is_unlock, mq_push, mq_locked, mq_dispatching,
}
use dn_server.Mq.Contents.{IsValid, size, cell, window, contents, size-lt-cap}
use dn_server.Mq.Tail.{contents-push_tail}
use dn_server.Mq.Head.{contents-push_head}

mq_pop_empty :
    (q : MessageQueue) → size q ≡ 0 → IsValid q → mq_pop q ≡ (none, record q { in_global = 0 })
unfolding mq_pop
mq_pop_empty q e v = ground arith

-- The head after a pop.
abbrev next_head : MessageQueue → ℕ
next_head q = if leb q.cap (q.head + 1) then 0 else q.head + 1

abbrev popped : MessageQueue → MessageQueue
popped q = record q { head = next_head q }

cell-popped :
    (q : MessageQueue) (i : ℕ) → IsValid q → suc i < q.cap → cell q (suc i) ≡ cell (popped q) i
cell-popped q i v h = ap (λ k. get_or q.queue k uninit) (ground arith)

contents-popped :
    (q : MessageQueue)
    → IsValid q
    → q.head ≢ q.tail
    → contents q ≡ get_or q.queue q.head uninit ∷ contents (popped q)
contents-popped q v ne =
    let e : size q ≡ suc (size (popped q)) = ground arith in
    let l : size q < q.cap = size-lt-cap v in
    let w : wrap q.cap (q.head + 0) ≡ q.head = ground arith in
    rw e (
      ap (λ k. get_or q.queue k uninit ∷ tabulate (size (popped q)) (λ i. cell q (suc i))) w
      ∙ ap (◌∷◌ (get_or q.queue q.head uninit))
          (tabulate-ext (size (popped q)) _ _ (λ i hi. cell-popped q i v (omega arith))))

-- What a pop does to a valid queue: an empty one is only marked as out of the global queue, any
-- other gives its oldest message and keeps the rest in order, and all else stays.
abbrev pub Pops : MessageQueue → Option Message × MessageQueue → Type 0
Pops q (none, q') = (contents q ≡ []) × (q' ≡ record q { in_global = 0 })
Pops q (some m, q') =
    (contents q ≡ m ∷ contents q') × IsValid q' × (q' ≡ record q { head = q'.head })

-- A pop takes the oldest message of a valid queue, and fails exactly where the queue holds none.
pub mq_pop-Pops : (q : MessageQueue) → IsValid q → Pops q (mq_pop q)
unfolding mq_pop
mq_pop-Pops q v = elim (Bool-cases (q.head == q.tail)) [
  | inl empty ↦ let e : size q ≡ 0 = ground arith in rw empty (ap (window q) e, refl)
  | inr more ↦ rw more (contents-popped q v (ground arith), ground arith, refl)
]

-- What a push does to the contents, with the two asserts that it may meet.
abbrev pub Pushes :
    GlobalQueue → MessageQueue → Message → Option (GlobalQueue × MessageQueue) → Type 0
Pushes g q m none =
    (is_unlock q m ≡ true) × (q.in_global ≢ mq_locked) × (q.in_global ≢ mq_dispatching)
Pushes g q m (some (g', q')) =
    IsValid q'
    × (contents q' ≡ (if is_unlock q m then m ∷ contents q else contents q ++ m ∷ []))
    × (q'.lock_session ≡ (if is_unlock q m then 0 else q.lock_session))

unlock-Pushes :
    (g : GlobalQueue) (q q₁ : MessageQueue) (m : Message)
    → is_unlock q m ≡ true
    → q₁.in_global ≡ q.in_global
    → IsValid q₁ × (contents q₁ ≡ m ∷ contents q)
    → Pushes g q m (unlock_session g q₁)
unfolding unlock_session
unlock-Pushes g q q₁ m u same h = elim (Bool-cases (q₁.in_global == mq_locked)) [
  | inl locked ↦
      rw (locked, u)
        (record { cells = h.0.cells; head_in = h.0.head_in; tail_in = h.0.tail_in }, h.1, refl)
  | inr other ↦ rw other (elim (Bool-cases (q₁.in_global == mq_dispatching)) [
    | inl busy ↦
        rw (busy, u)
          (record { cells = h.0.cells; head_in = h.0.head_in; tail_in = h.0.tail_in }, h.1, refl)
    | inr idle ↦ rw idle (u, ground arith, ground arith)
  ])
]

wake-Pushes :
    (g : GlobalQueue) (q q₁ : MessageQueue) (m : Message)
    → is_unlock q m ≡ false
    → q₁.lock_session ≡ q.lock_session
    → IsValid q₁ × (contents q₁ ≡ contents q ++ m ∷ [])
    → Pushes g q m (some (wake g q₁))
unfolding wake
wake-Pushes g q q₁ m u same h = elim (Bool-cases (q₁.lock_session == 0 && q₁.in_global == 0)) [
  | inl rest ↦
      rw (rest, u)
        (record { cells = h.0.cells; head_in = h.0.head_in; tail_in = h.0.tail_in }, h.1, same)
  | inr busy ↦ rw (busy, u) (h.0, h.1, same)
]

in_global-push_head :
    (q : MessageQueue) (m : Message) → (write_head (room_before_head q) m).in_global ≡ q.in_global
unfolding write_head room_before_head
in_global-push_head q m = ground arith

lock_session-push_tail :
    (q : MessageQueue) (m : Message) → (push_tail q m).lock_session ≡ q.lock_session
unfolding push_tail expand_queue
lock_session-push_tail q m = ground arith

-- A push of the message that the lock waits for puts it in front and gives the lock back; any
-- other is appended and leaves the lock. The assert fails only for such a message, in a queue
-- that is neither locked at rest nor being dispatched.
pub mq_push-Pushes :
    (g : GlobalQueue) (q : MessageQueue) (m : Message) → IsValid q → Pushes g q m (mq_push g q m)
unfolding mq_push pushhead
mq_push-Pushes g q m v = elim (Bool-cases (is_unlock q m)) [
  | inl u ↦
      rw (u, mq_push)
        (unlock-Pushes g q (write_head (room_before_head q) m) m u (in_global-push_head q m)
          (contents-push_head q m v))
  | inr u ↦
      rw (u, mq_push)
        (wake-Pushes g q (push_tail q m) m u (lock_session-push_tail q m)
          (contents-push_tail q m v))
]
