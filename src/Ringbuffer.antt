-- ===== src/Ringbuffer.antt =====
-- dn/gate/ringbuffer.c: the buffer of the gate for what its sockets receive. A block is named by its
-- offset in the buffer. An offset at which no block starts holds a header that nothing reads.
pub mod Layout
pub mod Carve
pub mod Rounds
pub mod LastId
pub mod Collect
pub mod Oldest
pub mod Room
pub mod Shrink
pub mod Links
mod Tests
use dn_server.Common.{
  ℕ, zero, suc, ◌+◌, ◌-◌, ◌*◌, ◌/◌, ◌%◌, Bool, true, false, List, [], ◌∷◌, Option, none, some, ltb,
  leb, ◌==◌, ◌&&◌, not, if◌then◌else◌, ◌>>=◌,
}

-- `struct ringbuffer_block`; a negative id or offset of a next block is `none`.
pub record Block : Type 0 where
  pub length : ℕ
  pub offset : ℕ
  pub id : Option ℕ
  pub next : Option ℕ

abbrev pub header_size : ℕ
header_size = 16

-- `struct ringbuffer` with the memory behind it: the headers, and the bytes.
pub record Ringbuffer : Type 0 where
  pub size : ℕ
  pub head : ℕ
  pub blocks : ℕ → Block
  pub bytes : ℕ → ℕ

-- `ALIGN`
abbrev pub align : ℕ → ℕ
align s = (s + 3) / 4 * 4

abbrev pub set_block : Ringbuffer → ℕ → Block → Ringbuffer
set_block rb o b = record rb { blocks = λ i. if i == o then b else rb.blocks i }

-- `block_next`: `none` where the assert fails, and NULL is `some none`.
pub block_next : Ringbuffer → ℕ → Option (Option ℕ)
block_next rb head =
    let align_length = align (rb.blocks head).length in
    if align_length + head == rb.size
    then some none
    else if ltb (align_length + head) rb.size
    then some (some (head + align_length))
    else none

-- `ringbuffer_new`; what the memory holds beyond the first header is arbitrary.
pub ringbuffer_new : ℕ → (ℕ → Block) → (ℕ → ℕ) → Ringbuffer
ringbuffer_new size blocks bytes =
    let rb : Ringbuffer = record { size = size; head = 0; blocks = blocks; bytes = bytes } in
    set_block rb 0 (record (blocks 0) { length = size; id = none })

abbrev pub is_some {ℓ} : {A : Type ℓ} → Option A → Bool
is_some none = false
is_some (some a) = true

-- The test of the walks: a block of which the id is read, and a connection holds it.
abbrev pub is_held : Block → Bool
is_held b = leb header_size b.length && is_some b.id

-- The header of what is left of the free blocks.
abbrev pub rest_block : Block → ℕ → Block
rest_block b length = record b {
  length = length;
  id = if leb header_size length then none else b.id;
}

-- `_alloc`: the block at the head, with a total size of free bytes from there.
pub alloc_head : Ringbuffer → ℕ → ℕ → Option (Ringbuffer × ℕ)
alloc_head rb total_size size =
    let blk = rb.head in
    let align_length = align (header_size + size) in
    let rb₁ =
      set_block rb blk
        (record { length = header_size + size; offset = 0; id = none; next = none }) in
    block_next rb₁ blk >>= λ next. some (elim next [
      | none ↦ (record rb₁ { head = 0 }, blk)
      | some o ↦
          let rb₂ : Ringbuffer = record rb₁ { head = o } in
          if ltb align_length total_size
          then (set_block rb₂ o (rest_block (rb₂.blocks o) (total_size - align_length)), blk)
          else (rb₂, blk)
    ])

-- How a round of `ringbuffer_alloc` ends: with a block that a connection holds, at the end of the
-- buffer, with a new block, or by an assert or without fuel.
pub data Round : Type 0 where
  held : Round
  ended : Round
  allocated : Ringbuffer → ℕ → Round
  failed : Round

pub allocated_round : Option (Ringbuffer × ℕ) → Round
allocated_round none = failed
allocated_round (some (rb, blk)) = allocated rb blk

-- The loop of a round, from a block on with the free bytes before it.
pub alloc_round : ℕ → Ringbuffer → ℕ → ℕ → ℕ → Round
alloc_round zero rb size free_size blk = failed
alloc_round (suc fuel) rb size free_size blk =
    let free_size' = free_size + align (rb.blocks blk).length in
    let more : ℕ → Round = λ o. alloc_round fuel rb size free_size' o in
    if is_held (rb.blocks blk)
    then held
    else if leb (align (header_size + size)) free_size'
    then allocated_round (alloc_head rb free_size' size)
    else elim (block_next rb blk) [ none ↦ failed | some none ↦ ended | some (some o) ↦ more o ]

-- What `ringbuffer_alloc` returns: a block, or NULL.
pub data Allocation : Type 0 where
  block : Ringbuffer → ℕ → Allocation
  null : Ringbuffer → Allocation
  failure : Allocation

-- `ringbuffer_alloc` after its first round has ended and moved the head, and the whole.
pub alloc_again : Ringbuffer → ℕ → Allocation
alloc_again rb size = elim (alloc_round rb.size rb size 0 rb.head) [
  | held ↦ null rb
  | ended ↦ null (record rb { head = 0 })
  | allocated rb' blk ↦ block rb' blk
  | failed ↦ failure
]

pub ringbuffer_alloc : Ringbuffer → ℕ → Allocation
ringbuffer_alloc rb size = elim (alloc_round rb.size rb size 0 rb.head) [
  | held ↦ null rb
  | ended ↦ alloc_again (record rb { head = 0 }) size
  | allocated rb' blk ↦ block rb' blk
  | failed ↦ failure
]

-- The loop of a round of `_last_id`: the first id from a block on, `none` at the end of the buffer.
pub last_id_round : ℕ → Ringbuffer → ℕ → Option (Option ℕ)
last_id_round zero rb blk = none
last_id_round (suc fuel) rb blk =
    let more : ℕ → Option (Option ℕ) = λ o. last_id_round fuel rb o in
    if is_held (rb.blocks blk)
    then some (rb.blocks blk).id
    else block_next rb blk >>= λ next. elim next [ none ↦ some none | some o ↦ more o ]

-- `_last_id`
pub last_id : Ringbuffer → Option (Ringbuffer × Option ℕ)
last_id rb =
    let rb₀ : Ringbuffer = record rb { head = 0 } in
    last_id_round rb.size rb rb.head >>= λ first. elim first [
      | some id ↦ some (rb, some id)
      | none ↦ last_id_round rb.size rb₀ 0 >>= λ second. some (rb₀, second)
    ]

abbrev pub is_id : Option ℕ → Option ℕ → Bool
is_id none none = true
is_id none (some i) = false
is_id (some i) none = false
is_id (some i) (some j) = i == j

-- A block after the test of `ringbuffer_collect`.
abbrev pub collect_block : Option ℕ → Block → Block
collect_block id b = if leb header_size b.length && is_id b.id id then record b { id = none } else b

-- The loop of `ringbuffer_collect`
pub collect_loop : ℕ → Option ℕ → Ringbuffer → ℕ → Option Ringbuffer
collect_loop zero id rb blk = none
collect_loop (suc fuel) id rb blk =
    let rb' = set_block rb blk (collect_block id (rb.blocks blk)) in
    let more : ℕ → Option Ringbuffer = λ o. collect_loop fuel id rb' o in
    block_next rb' blk >>= λ next. elim next [ none ↦ some rb' | some o ↦ more o ]

pub ringbuffer_collect : Ringbuffer → Option (Ringbuffer × Option ℕ)
ringbuffer_collect rb = last_id rb >>= λ found.
    let (rb₁, id) = found in collect_loop rb₁.size id rb₁ 0 >>= λ rb₂. some (rb₂, id)

-- `ringbuffer_shrink`; `none` is a failed assert, or no block after the old end.
pub ringbuffer_shrink : Ringbuffer → ℕ → ℕ → Option Ringbuffer
ringbuffer_shrink rb blk zero = some (record rb { head = blk })
ringbuffer_shrink rb blk (suc n) =
    let size = suc n in
    let align_length = align (header_size + size) in
    let old_length = align (rb.blocks blk).length in
    let rb₁ = set_block rb blk (record (rb.blocks blk) { length = size + header_size }) in
    if leb align_length old_length
    then (if align_length == old_length
        then some rb₁
        else block_next rb₁ blk >>= λ next. next >>= λ o.
            some (record (set_block rb₁ o (rest_block (rb₁.blocks o) (old_length - align_length))) {
              head = o;
            }))
    else none
