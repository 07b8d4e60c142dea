-- ===== src/Mq/Global.antt =====
-- The global queue of skynet_mq.c is a FIFO of queue addresses while it has a free cell.
use dn_server.Common.{
  ℕ, suc, ◌+◌, ◌-◌, ◌%◌, ◌^◌, ◌<◌, ◌≡◌, refl, ap, ◌∙◌, ◌≢◌, inl, inr, true, false, List, [], ◌∷◌,
  ◌++◌, Option, none, some, arith, ◌==◌, tabulate, tabulate-ext, tabulate-snoc, Bool-cases, eq→==,
}
use dn_server.Mq.{GlobalQueue, max_global_mq, gp, update, globalmq_push, globalmq_pop, mq_init}

-- The distance from `head` to `tail`; both counters wrap at 2 ^ 32.
abbrev pub size : GlobalQueue → ℕ
size g = (g.tail + 2 ^ 32 - g.head) % 2 ^ 32

abbrev pub cell : GlobalQueue → ℕ → ℕ
cell g i = g.queue (gp (g.head + i))

-- The queues that wait for a worker, the next one first.
abbrev pub contents : GlobalQueue → List ℕ
contents g = tabulate (size g) (cell g)

-- Every thread has finished its push: the flag of each cell in use is set.
pub record IsValid (g : GlobalQueue) : Type 0 where
  pub head_small : g.head < 2 ^ 32
  pub tail_small : g.tail < 2 ^ 32
  pub room : size g < max_global_mq
  pub flags : (i : ℕ) → i < size g → g.flag (gp (g.head + i)) ≡ true

cell-globalmq_push :
    (g : GlobalQueue) (a i : ℕ) → IsValid g → i < size g → cell (globalmq_push g a) i ≡ cell g i
unfolding globalmq_push
cell-globalmq_push g a i v h =
    let w : size g < max_global_mq = v.room in
    let ne : gp (g.head + i) ≢ gp g.tail = omega arith in ground arith

cell-globalmq_push_last :
    (g : GlobalQueue) (a : ℕ) → IsValid g → cell (globalmq_push g a) (size g) ≡ a
unfolding globalmq_push
cell-globalmq_push_last g a v =
    let e : gp (g.head + size g) ≡ gp g.tail = omega arith in ground arith

size-globalmq_push : (g : GlobalQueue) (a : ℕ) → IsValid g → size (globalmq_push g a) ≡ suc (size g)
unfolding globalmq_push
size-globalmq_push g a v = omega arith

flags-globalmq_push :
    (g : GlobalQueue) (a i : ℕ)
    → IsValid g
    → i < size (globalmq_push g a)
    → (globalmq_push g a).flag (gp (g.head + i)) ≡ true
unfolding globalmq_push
flags-globalmq_push g a i v h = elim (Bool-cases (gp (g.head + i) == gp g.tail)) [
  | inl last ↦ rw last
  | inr before ↦ rw before (v.flags i (let w : size g < max_global_mq = v.room in ground arith))
]

-- A push while fewer than 65535 queues wait appends the queue, and keeps the ring valid.
pub contents-globalmq_push :
    (g : GlobalQueue) (a : ℕ)
    → IsValid g
    → size g + 1 < max_global_mq
    → IsValid (globalmq_push g a) × (contents (globalmq_push g a) ≡ contents g ++ a ∷ [])
contents-globalmq_push g a v h = (
  record {
    head_small = unfold globalmq_push in v.head_small;
    tail_small = unfold globalmq_push in omega arith;
    room = omega (arith, size-globalmq_push g a v);
    flags = λ i. unfold globalmq_push in flags-globalmq_push g a i v;
  },
  rw (size-globalmq_push g a v) (
      tabulate-snoc (size g) (cell (globalmq_push g a))
      ∙ cc (
        tabulate-ext (size g) (cell (globalmq_push g a)) (cell g)
            (λ i l. cell-globalmq_push g a i v l),
        cell-globalmq_push_last g a v,
      )),
)

-- What a worker gets: nothing from an empty ring, or the queue that has waited longest.
abbrev pub Takes : GlobalQueue → Option (ℕ × GlobalQueue) → Type 0
Takes g none = contents g ≡ []
Takes g (some (a, g')) = (contents g ≡ a ∷ contents g') × IsValid g'

abbrev taken : GlobalQueue → GlobalQueue
taken g = record g { head = (g.head + 1) % 2 ^ 32; flag = update g.flag (gp g.head) false }

size-taken : (g : GlobalQueue) → IsValid g → gp g.head ≢ gp g.tail → size g ≡ suc (size (taken g))
size-taken g v ne = let w : size g < max_global_mq = v.room in omega arith

taken-IsValid : (g : GlobalQueue) → IsValid g → gp g.head ≢ gp g.tail → IsValid (taken g)
taken-IsValid g v ne =
    let e : size g ≡ suc (size (taken g)) = size-taken g v ne in
    let w : size g < max_global_mq = v.room in
    record {
      head_small = omega arith;
      tail_small = v.tail_small;
      room = omega arith;
      flags = λ i h.
          let k : gp ((g.head + 1) % 2 ^ 32 + i) ≡ gp (g.head + suc i) = omega arith in
          let d : (gp ((g.head + 1) % 2 ^ 32 + i) == gp g.head) ≡ false =
            (let d' : gp ((g.head + 1) % 2 ^ 32 + i) ≢ gp g.head = omega arith in ground arith) in
          rw d (rw k (v.flags (suc i) (omega arith)));
    }

cell-taken : (g : GlobalQueue) (i : ℕ) → cell g (suc i) ≡ cell (taken g) i
cell-taken g i = ap g.queue (omega arith)

contents-taken :
    (g : GlobalQueue)
    → IsValid g
    → gp g.head ≢ gp g.tail
    → contents g ≡ g.queue (gp g.head) ∷ contents (taken g)
contents-taken g v ne =
    let k : gp (g.head + 0) ≡ gp g.head = omega arith in
    rw (size-taken g v ne) (
      cc (
        ap g.queue k,
        tabulate-ext (size (taken g)) (λ i. cell g (suc i)) (cell (taken g))
            (λ i h. cell-taken g i),
      ))

-- A pop takes the queue that has waited longest, and fails exactly where none waits.
pub globalmq_pop-Takes : (g : GlobalQueue) → IsValid g → Takes g (globalmq_pop g)
unfolding globalmq_pop
globalmq_pop-Takes g v = elim (Bool-cases (gp g.head == gp g.tail)) [
  | inl empty ↦
      let w : size g < max_global_mq = v.room in
      let e : gp g.head ≡ gp g.tail = ground arith in
      let e' : size g ≡ 0 = (let h1 = v.head_small in let h2 = v.tail_small in omega arith) in
      rw empty (rw e')
  | inr more ↦
      let ne : gp g.head ≢ gp g.tail = ground arith in
      let k : gp (g.head + 0) ≡ gp g.head = omega arith in
      let f : g.flag (gp g.head) ≡ true = rw k at (v.flags 0 (omega (arith, size-taken g v ne))) in
      rw (more, f) (contents-taken g v ne, taken-IsValid g v ne)
]

-- The ring of `skynet_mq_init` is valid and empty.
mq_init-IsValid : (garbage : ℕ → ℕ) → IsValid (mq_init garbage) × (contents (mq_init garbage) ≡ [])
unfolding mq_init
mq_init-IsValid garbage = (
  record {
    head_small = omega arith;
    tail_small = omega arith;
    room = omega arith;
    flags = λ i h. absurd (omega arith);
  },
  refl,
)

-- The limit: a push while 65535 queues wait makes the ring look empty to every worker.
globalmq_pop-full :
    (g : GlobalQueue) (a : ℕ)
    → IsValid g
    → size g + 1 ≡ max_global_mq
    → globalmq_pop (globalmq_push g a) ≡ none
unfolding globalmq_push globalmq_pop
globalmq_pop-full g a v h =
    let e : gp g.head ≡ gp ((g.tail + 1) % 2 ^ 32) = omega arith in
    rw (eq→== (gp g.head) (gp ((g.tail + 1) % 2 ^ 32)) e)
