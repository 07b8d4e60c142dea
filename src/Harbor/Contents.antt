-- ===== src/Harbor/Contents.antt =====
-- The messages that wait for a name, `struct msg_queue` of dn/service-src/service_harbor.c, as a
-- list with the oldest first.
use dn_server.Common.{
  ℕ, zero, suc, ◌+◌, ◌-◌, ◌*◌, ◌%◌, ◌≤◌, ◌<◌, ◌≡◌, refl, ap, ◌∙◌, inl, inr, List, [], ◌∷◌, ◌++◌,
  Option, none, some, arith, leb, ◌==◌, if◌then◌else◌, length, get_or, replicate, tabulate,
  length-append, length-set, length-replicate, length-tabulate, get_or-append_left, get_or-set_self,
  get_or-set_ne, tabulate-ext, tabulate-snoc, Bool-cases, wrap, mod-wrap,
}
use dn_server.Harbor.{
  Msg, RemoteMessageHeader, MsgQueue, uninit, new_queue, move_cells, expand, put_tail, push_queue,
  pop_queue, default_msg_queue_size,
}

pub record IsValid (q : MsgQueue) : Type 0 where
  pub length_cells : length q.cells ≡ q.size
  pub head_in : q.head < q.size
  pub tail_in : q.tail < q.size
  pub roomy : 2 ≤ q.size

-- The number of messages held.
abbrev pub held : MsgQueue → ℕ
held q = if leb q.head q.tail then q.tail - q.head else q.tail + q.size - q.head

-- The `i`-th cell from the head.
abbrev cell : MsgQueue → ℕ → Msg
cell q i = get_or q.cells (wrap q.size (q.head + i)) uninit

abbrev pub contents : MsgQueue → List Msg
contents q = tabulate (held q) (cell q)

length-move_cells : (q : MsgQueue) (n i : ℕ) → length (move_cells q n i) ≡ n
unfolding move_cells
length-move_cells q zero i = refl
length-move_cells q (suc n) i = ap suc (length-move_cells q n (i + 1))

get_or-move_cells :
    (q : MsgQueue) (n i k : ℕ)
    → q.head < q.size
    → n + i ≤ q.size
    → k < n
    → get_or (move_cells q n i) k uninit ≡ cell q (i + k)
unfolding move_cells
get_or-move_cells q zero i k h b l = absurd (omega arith)
get_or-move_cells q (suc n) i zero h b l =
    let e : i + 0 ≡ i = omega arith in
    let c : i + q.head ≡ q.head + i = omega arith in
    rw (e, c, mod-wrap q.head i q.size h (omega arith)) refl
get_or-move_cells q (suc n) i (suc k) h b l =
    let e : i + suc k ≡ i + 1 + k = omega arith in
    rw e (get_or-move_cells q n (i + 1) k h (omega arith) (omega arith))

next : (q : MsgQueue) (i : ℕ) → i < q.size → 2 ≤ q.size → (i + 1) % q.size ≡ wrap q.size (i + 1)
next q i h r = mod-wrap i 1 q.size h (omega arith)

expand-IsValid : (q : MsgQueue) → IsValid q → IsValid (expand q)
unfolding expand
expand-IsValid q v = omega (
  arith,
  v.head_in,
  v.roomy,
  length-append (move_cells q (q.size - 1) 0) (replicate (q.size + 1) uninit),
  length-move_cells q (q.size - 1) 0,
  length-replicate (q.size + 1) uninit,
)

contents-expand :
    (q : MsgQueue) → IsValid q → held q + 1 ≡ q.size → contents (expand q) ≡ contents q
unfolding expand
contents-expand q v full =
    let n : held (expand q) ≡ held q = ground arith in
    rw n (
      tabulate-ext (held q) (cell (expand q)) (cell q) λ i h.
        let w : wrap (q.size * 2) (0 + i) ≡ i = ground arith in
        rw w (
          get_or-append_left (move_cells q (q.size - 1) 0) (replicate (q.size + 1) uninit) i uninit
            (omega (arith, length-move_cells q (q.size - 1) 0))
          ∙ get_or-move_cells q (q.size - 1) 0 i v.head_in (omega arith) (omega arith)
          ∙ ap (cell q) (omega arith)))

-- A message is appended where there is room.
contents-put_tail :
    (q : MsgQueue) (m : Msg)
    → IsValid q
    → held q + 1 < q.size
    → IsValid (put_tail q m) × (contents (put_tail q m) ≡ contents q ++ m ∷ [])
unfolding put_tail
contents-put_tail q m v room =
    let e : (q.tail + 1) % q.size ≡ wrap q.size (q.tail + 1) = next q q.tail v.tail_in v.roomy in
    let n : held (put_tail q m) ≡ suc (held q) = rw e (ground arith) in
    let last : wrap q.size (q.head + held q) ≡ q.tail = ground arith in
    (
      record {
        length_cells = length-set q.cells q.tail m ∙ v.length_cells;
        head_in = v.head_in;
        tail_in = rw e (ground arith);
        roomy = v.roomy;
      },
      ap (λ k. tabulate k (cell (put_tail q m))) n
          ∙ tabulate-snoc (held q) (cell (put_tail q m))
          ∙ cc (
            tabulate-ext (held q) (cell (put_tail q m)) (cell q) (λ i h.
                get_or-set_ne q.cells q.tail (wrap q.size (q.head + i)) m uninit (ground arith)),
            get_or-set_self q.cells q.tail m uninit (omega arith),
          ),
    )

-- A push appends the message, also where the array grows, and keeps the queue valid.
pub contents-push_queue :
    (q : MsgQueue) (buffer : List ℕ) (header : RemoteMessageHeader)
    → IsValid q
    → IsValid (push_queue q buffer header)
      × (contents (push_queue q buffer header)
          ≡ contents q ++ record { buffer = buffer; header = header } ∷ [])
unfolding push_queue
contents-push_queue q buffer header v =
    let e : (q.tail + 1) % q.size ≡ wrap q.size (q.tail + 1) = next q q.tail v.tail_in v.roomy in
    let m : Msg = record { buffer = buffer; header = header } in
    elim (Bool-cases ((q.tail + 1) % q.size == q.head)) [
      | inl full ↦
          let full' = rw e at full in
          let n : held q + 1 ≡ q.size = ground arith in
          let (valid, put) =
            contents-put_tail (expand q) m (expand-IsValid q v) (unfold expand in ground arith) in
          rw full (valid, put ∙ ap (λ ms. ms ++ m ∷ []) (contents-expand q v n))
      | inr room ↦ rw room (contents-put_tail q m v (let room' = rw e at room in ground arith))
    ]

-- What a pop does to a queue: it fails where none waits, or takes the oldest.
abbrev pub Pops : MsgQueue → Option Msg × MsgQueue → Type 0
Pops q (none, q') = (contents q ≡ []) × (q' ≡ q)
Pops q (some m, q') = IsValid q' × (contents q ≡ m ∷ contents q') × (q'.size ≡ q.size)

pop_queue-Pops : (q : MsgQueue) → IsValid q → Pops q (pop_queue q)
unfolding pop_queue
pop_queue-Pops q v =
    let e : (q.head + 1) % q.size ≡ wrap q.size (q.head + 1) = next q q.head v.head_in v.roomy in
    elim (Bool-cases (q.head == q.tail)) [
      | inl empty ↦
          let n : held q ≡ 0 = ground arith in rw empty (ap (λ k. tabulate k (cell q)) n, refl)
      | inr more ↦
          let q' = record q { head = (q.head + 1) % q.size } in
          let n : held q ≡ suc (held q') = rw e (ground arith) in
          let z : wrap q.size (q.head + 0) ≡ q.head = ground arith in
          rw more (
            record {
              length_cells = v.length_cells;
              head_in = rw e (ground arith);
              tail_in = v.tail_in;
              roomy = v.roomy;
            },
            ap (λ k. tabulate k (cell q)) n
                ∙ cc (
                  ap (λ k. get_or q.cells k uninit) z,
                  tabulate-ext (held q') (λ i. cell q (suc i)) (cell q')
                      (λ i h. ap (λ k. get_or q.cells k uninit) (rw e (ground arith))),
                ),
            refl,
          )
    ]

pub new_queue-IsValid : IsValid new_queue × (contents new_queue ≡ [])
unfolding new_queue
new_queue-IsValid = (omega (arith, length-replicate default_msg_queue_size uninit), refl)

pub held-lt : (q : MsgQueue) → IsValid q → held q < q.size
held-lt q v = ground arith

Pops-none : (q : MsgQueue) (p : Option Msg × MsgQueue) → Pops q p → p.0 ≡ none → contents q ≡ []
Pops-none q (none, q') h e = h.0
Pops-none q (some m, q') h e = cc

Pops-some :
    (q : MsgQueue) (m : Msg) (p : Option Msg × MsgQueue)
    → Pops q p
    → p.0 ≡ some m
    → IsValid (p.1) × (contents q ≡ m ∷ contents (p.1))
Pops-some q m (none, q') h e = cc
Pops-some q m (some n, q') h e = (h.0, h.1 ∙ cc)

-- A failed pop finds no message; another one takes the oldest.
pub pop_queue-none : (q : MsgQueue) → IsValid q → (pop_queue q).0 ≡ none → contents q ≡ []
pop_queue-none q v e = Pops-none q (pop_queue q) (pop_queue-Pops q v) e

pub pop_queue-some :
    (q : MsgQueue) (m : Msg)
    → IsValid q
    → (pop_queue q).0 ≡ some m
    → IsValid ((pop_queue q).1) × (contents q ≡ m ∷ contents ((pop_queue q).1))
pop_queue-some q m v e = Pops-some q m (pop_queue q) (pop_queue-Pops q v) e

pub length-contents : (q : MsgQueue) → length (contents q) ≡ held q
length-contents q = length-tabulate (held q) (cell q)
