-- ===== src/Mq/Head.antt =====
-- A push at the head of the ring of skynet_mq.c, with the growth of the array.
use dn_server.Common.{
  ℕ, suc, ◌+◌, ◌-◌, ◌*◌, ◌<◌, ◌≡◌, refl, ap, ◌∙◌, ◌≢◌, inl, inr, ◌∷◌, arith, ◌==◌, if◌then◌else◌,
  get_or, set, length-set, get_or-set_self, get_or-set_ne, tabulate-ext, Bool-cases, wrap,
}
use dn_server.Mq.{Message, MessageQueue, uninit, expand_queue, room_before_head, write_head}
use dn_server.Mq.Contents.{
  IsValid, size, cell, contents, size-lt-cap, expand_queue-IsValid, cell-expand_queue,
}

-- The head in front of a queue with room.
abbrev prev_head : MessageQueue → ℕ
prev_head q = if q.head == 0 then q.cap - 1 else q.head - 1

contents-write_head :
    (q : MessageQueue) (head : ℕ) (m : Message)
    → IsValid q
    → head ≡ prev_head q
    → head ≢ q.tail
    → contents (write_head (q, head) m) ≡ m ∷ contents q
unfolding write_head
contents-write_head q head m v e ne =
    let q' = record q { queue = set q.queue head m; head = head } in
    let s : size q' ≡ suc (size q) = ground arith in
    let w : wrap q.cap (head + 0) ≡ head = ground arith in
    rw s (
      cc (
        ap (λ k. get_or (set q.queue head m) k uninit) w,
        get_or-set_self q.queue head m uninit (ground arith),
        tabulate-ext (size q) (λ i. cell q' (suc i)) (cell q)
            (λ i h.
              let ne' : head ≢ wrap q.cap (q.head + i) = ground arith in
              let k : wrap q.cap (head + suc i) ≡ wrap q.cap (q.head + i) = ground arith in
              rw k (get_or-set_ne q.queue head (wrap q.cap (q.head + i)) m uninit ne')),
      ))

-- The queue that `room_before_head` returns where it grows: `head == tail` after the step back.
abbrev grown : MessageQueue → MessageQueue
grown q = record (expand_queue q) { tail = q.cap - 1 }

grown-IsValid : (q : MessageQueue) → IsValid q → IsValid (grown q)
grown-IsValid q v =
    let w : IsValid (expand_queue q) = expand_queue-IsValid v in unfold expand_queue in ground arith

contents-grown :
    (q : MessageQueue) → IsValid q → prev_head q ≡ q.tail → contents (grown q) ≡ contents q
contents-grown q v full =
    let e : size (grown q) ≡ size q = unfold expand_queue in ground arith in
    rw e (
      tabulate-ext (size q) (cell (grown q)) (cell q)
        (λ i h. cell-expand_queue q i v (omega (arith, size-lt-cap v))))

write_head-IsValid :
    (q : MessageQueue) (head : ℕ) (m : Message)
    → IsValid q
    → head < q.cap
    → IsValid (write_head (q, head) m)
unfolding write_head
write_head-IsValid q head m v h = ground (arith, length-set q.queue head m)

contents-write_grown :
    (q : MessageQueue) (m : Message)
    → IsValid q
    → prev_head q ≡ q.tail
    → contents (write_head (grown q, q.cap * 2 - 1) m) ≡ m ∷ contents q
contents-write_grown q m v full =
    contents-write_head (grown q) (q.cap * 2 - 1) m (grown-IsValid q v)
      (unfold expand_queue in ground arith) (unfold expand_queue in ground arith)
    ∙ ap (◌∷◌ m) (contents-grown q v full)

-- A push at the head puts the message in front, also where the array grows.
pub contents-push_head :
    (q : MessageQueue) (m : Message)
    → IsValid q
    → IsValid (write_head (room_before_head q) m)
      × (contents (write_head (room_before_head q) m) ≡ m ∷ contents q)
unfolding room_before_head
contents-push_head q m v = elim (Bool-cases (prev_head q == q.tail)) [
  | inl full ↦ rw full (
    write_head-IsValid (grown q) (q.cap * 2 - 1) m (grown-IsValid q v)
        (unfold expand_queue in ground arith),
    contents-write_grown q m v (ground arith),
  )
  | inr room ↦ rw room (
    write_head-IsValid q (prev_head q) m v (ground arith),
    contents-write_head q (prev_head q) m v refl (ground arith),
  )
]
