-- ===== src/Mq/Tail.antt =====
-- A push at the tail of the ring of skynet_mq.c, with the growth of the array.
use dn_server.Common.{
  ℕ, suc, ◌+◌, ◌<◌, ◌≡◌, ap, ◌∙◌, sym, ◌≢◌, inl, inr, true, false, [], ◌∷◌, ◌++◌, arith, leb, ◌==◌,
  if◌then◌else◌, set, length-set, get_or-set_self, get_or-set_ne, tabulate-ext, tabulate-snoc,
  Bool-cases, wrap,
}
use dn_server.Mq.{Message, MessageQueue, uninit, expand_queue, push_tail}
use dn_server.Mq.Contents.{
  IsValid, size, cell, window, contents, expand_queue-IsValid, cell-expand_queue,
}

abbrev stepped : MessageQueue → Message → MessageQueue
stepped q m = record q {
  queue = set q.queue q.tail m;
  tail = if leb q.cap (q.tail + 1) then 0 else q.tail + 1;
}

cell_before_tail :
    (q : MessageQueue) (m : Message) (i : ℕ)
    → IsValid q
    → i < size q
    → cell (stepped q m) i ≡ cell q i
cell_before_tail q m i v h =
    let ne : q.tail ≢ wrap q.cap (q.head + i) = ground arith in
    get_or-set_ne q.queue q.tail (wrap q.cap (q.head + i)) m uninit ne

cell_at_tail : (q : MessageQueue) (m : Message) → IsValid q → cell (stepped q m) (size q) ≡ m
cell_at_tail q m v =
    let e : wrap q.cap (q.head + size q) ≡ q.tail = ground arith in
    rw e (get_or-set_self q.queue q.tail m uninit (omega arith))

window-stepped :
    (q : MessageQueue) (m : Message)
    → IsValid q
    → window (stepped q m) (suc (size q)) ≡ contents q ++ m ∷ []
window-stepped q m v =
    tabulate-snoc (size q) (cell (stepped q m))
    ∙ cc (
      tabulate-ext (size q) (cell (stepped q m)) (cell q) (λ i h. cell_before_tail q m i v h),
      cell_at_tail q m v,
    )

stepped-IsValid : (q : MessageQueue) (m : Message) → IsValid q → IsValid (stepped q m)
stepped-IsValid q m v = ground (arith, length-set q.queue q.tail m)

window-expand_queue : (q : MessageQueue) → IsValid q → contents (expand_queue q) ≡ window q q.cap
unfolding expand_queue
window-expand_queue q v =
    let e : size (expand_queue q) ≡ q.cap = ground arith in
    rw e (tabulate-ext q.cap _ _ (λ i h. cell-expand_queue q i v h))

contents-full :
    (q : MessageQueue) (m : Message)
    → IsValid q
    → (q.head == (stepped q m).tail) ≡ true
    → contents (expand_queue (stepped q m)) ≡ contents q ++ m ∷ []
contents-full q m v full =
    let e : suc (size q) ≡ q.cap = ground arith in
    window-expand_queue (stepped q m) (stepped-IsValid q m v)
    ∙ ap (window (stepped q m)) (sym e)
    ∙ window-stepped q m v

contents-room :
    (q : MessageQueue) (m : Message)
    → IsValid q
    → (q.head == (stepped q m).tail) ≡ false
    → contents (stepped q m) ≡ contents q ++ m ∷ []
contents-room q m v room =
    let e : size (stepped q m) ≡ suc (size q) = ground arith in
    ap (window (stepped q m)) e ∙ window-stepped q m v

-- A push at the tail appends the message, also where the array grows, and keeps the queue valid.
pub contents-push_tail :
    (q : MessageQueue) (m : Message)
    → IsValid q
    → IsValid (push_tail q m) × (contents (push_tail q m) ≡ contents q ++ m ∷ [])
unfolding push_tail
contents-push_tail q m v = elim (Bool-cases (q.head == (stepped q m).tail)) [
  | inl full ↦ rw full (expand_queue-IsValid (stepped-IsValid q m v), contents-full q m v full)
  | inr room ↦ rw room (stepped-IsValid q m v, contents-room q m v room)
]
