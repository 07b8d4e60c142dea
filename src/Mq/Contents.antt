-- ===== src/Mq/Contents.antt =====
-- The messages that a queue holds, oldest first, and what each operation of skynet_mq.c does to them.
use dn_server.Common.{
  wrap, mod-wrap, ℕ, zero, suc, ◌+◌, ◌-◌, ◌*◌, ◌≤◌, ◌<◌, ◌≡◌, refl, ap, ◌∙◌, true, List, arith, ltb,
  leb, if◌then◌else◌, length, get_or, replicate, tabulate, length-append, get_or-append_left,
  length-replicate, length-tabulate,
}
use dn_server.Mq.{Message, MessageQueue, uninit, copy_cells, expand_queue}

pub record IsValid (q : MessageQueue) : Type 0 where
  pub cells : length q.queue ≡ q.cap
  pub head_in : q.head < q.cap
  pub tail_in : q.tail < q.cap

-- The number of messages held.
abbrev pub size : MessageQueue → ℕ
size q = if leb q.head q.tail then q.tail - q.head else q.tail + q.cap - q.head

-- The `i`-th cell from the head.
abbrev pub cell : MessageQueue → ℕ → Message
cell q i = get_or q.queue (wrap q.cap (q.head + i)) uninit

abbrev pub window : MessageQueue → ℕ → List Message
window q n = tabulate n (cell q)

abbrev pub contents : MessageQueue → List Message
contents q = window q (size q)

pub length-contents : (q : MessageQueue) → length (contents q) ≡ size q
length-contents q = length-tabulate (size q) (cell q)

pub size-lt-cap : {q : MessageQueue} → IsValid q → size q < q.cap
size-lt-cap v = ground arith

length-copy_cells : (q : MessageQueue) (n i : ℕ) → length (copy_cells q n i) ≡ n
unfolding copy_cells
length-copy_cells q zero i = refl
length-copy_cells q (suc n) i = ap suc (length-copy_cells q n (i + 1))

get_or-copy_cells :
    (q : MessageQueue) (n i k : ℕ)
    → q.head < q.cap
    → n + i ≤ q.cap
    → k < n
    → get_or (copy_cells q n i) k uninit ≡ cell q (i + k)
unfolding copy_cells
get_or-copy_cells q zero i k h b l = absurd (omega arith)
get_or-copy_cells q (suc n) i zero h b l =
    let e : i + 0 ≡ i = omega arith in rw (e, mod-wrap q.head i q.cap h (omega arith))
get_or-copy_cells q (suc n) i (suc k) h b l =
    let e : i + suc k ≡ i + 1 + k = omega arith in
    rw e (get_or-copy_cells q n (i + 1) k h (omega arith) (omega arith))

pub expand_queue-IsValid : {q : MessageQueue} → IsValid q → IsValid (expand_queue q)
unfolding expand_queue
expand_queue-IsValid {q} v = omega (
  arith,
  length-append (copy_cells q q.cap 0) (replicate q.cap uninit),
  length-copy_cells q q.cap 0,
  length-replicate q.cap uninit,
)

-- The new array begins with the old one, read from the head.
pub cell-expand_queue :
    (q : MessageQueue) (i : ℕ) → IsValid q → i < q.cap → cell (expand_queue q) i ≡ cell q i
unfolding expand_queue
cell-expand_queue q i v h =
    let e : 0 + i ≡ i = omega arith in
    let w : ltb i (q.cap * 2) ≡ true = ground arith in
    rw (e, w)
      (get_or-append_left (copy_cells q q.cap 0) (replicate q.cap uninit) i uninit
          (omega (arith, length-copy_cells q q.cap 0))
        ∙ get_or-copy_cells q q.cap 0 i v.head_in (omega arith) h
        ∙ ap (cell q) e)
