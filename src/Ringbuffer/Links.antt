-- ===== src/Ringbuffer/Links.antt =====
-- The messages of dn/gate/ringbuffer.c: blocks of a connection that are linked in the order in which
-- their bytes came. A block that is read has room for its header and its offset.
pub mod Contents
pub mod Data
pub mod Move
pub mod Parts
pub mod Copy
pub mod Behind
pub mod Yield
pub mod Grow
pub mod Link
use dn_server.Common.{
  ℕ, zero, suc, ◌+◌, ◌-◌, Bool, true, false, Option, none, some, ltb, leb, ◌==◌, ◌&&◌,
  if◌then◌else◌, ◌>>=◌, assert,
}
use dn_server.Ringbuffer.{Block, Ringbuffer, header_size, set_block}

-- The loop of `ringbuffer_link`: the last block of a message.
pub last_block : ℕ → Ringbuffer → ℕ → Option ℕ
last_block zero rb head = none
last_block (suc fuel) rb head =
    let more : ℕ → Option ℕ = λ o. last_block fuel rb o in
    elim (rb.blocks head).next [ none ↦ some head | some o ↦ more o ]

pub ringbuffer_link : Ringbuffer → ℕ → ℕ → Option Ringbuffer
ringbuffer_link rb head next = last_block rb.size rb head >>= λ last.
    let rb₁ = set_block rb next (record (rb.blocks next) { id = (rb.blocks last).id }) in
    some (set_block rb₁ last (record (rb₁.blocks last) { next = some next }))

-- `_block_id`
pub block_id : Ringbuffer → ℕ → Option ℕ
block_id rb blk = assert (leb header_size (rb.blocks blk).length) (rb.blocks blk).id

abbrev pub unhold : Ringbuffer → ℕ → Ringbuffer
unhold rb blk = set_block rb blk (record (rb.blocks blk) { id = none })

-- The loop of `ringbuffer_free`, after a block whose id is tested
pub free_loop : ℕ → Ringbuffer → ℕ → ℕ → Option Ringbuffer
free_loop zero rb id blk = none
free_loop (suc fuel) rb id blk =
    let rb₁ = unhold rb blk in
    let more : ℕ → Option Ringbuffer = λ o. free_loop fuel rb₁ id o in
    elim (rb.blocks blk).next [
      | none ↦ some rb₁
      | some o ↦ block_id rb₁ o >>= λ id'. assert (id' == id) (more o)
    ]

pub ringbuffer_free : Ringbuffer → Option ℕ → Option Ringbuffer
ringbuffer_free rb none = some rb
ringbuffer_free rb (some blk) = block_id rb blk >>= λ id. free_loop rb.size rb id blk

-- The bytes of a block, and of one that is read in part. In the code a block that is shorter than
-- its header and offset has a negative number of them, here 0.
abbrev pub room : Block → ℕ
room b = b.length - header_size

abbrev pub room_left : Block → ℕ
room_left b = b.length - header_size - b.offset

-- The loop of `ringbuffer_data` that counts up to the size that is asked for.
pub count_data : ℕ → Ringbuffer → ℕ → ℕ → ℕ → Option ℕ
count_data zero rb blk ret size = none
count_data (suc fuel) rb blk ret size =
    let more : ℕ → ℕ → Option ℕ = λ o ret'. count_data fuel rb o ret' size in
    elim (rb.blocks blk).next [
      | none ↦ some ret
      | some o ↦
          let ret' = ret + room (rb.blocks o) in if leb size ret' then some size else more o ret'
    ]

-- The loop of `ringbuffer_data`: the number of bytes, and the pointer.
pub data_loop : ℕ → Ringbuffer → ℕ → ℕ → ℕ → ℕ → Option (ℕ × Option ℕ)
data_loop zero rb blk length size skip = none
data_loop (suc fuel) rb blk length size skip =
    let more : ℕ → Option (ℕ × Option ℕ) =
      λ o. data_loop fuel rb o (room (rb.blocks o)) size (skip - length) in
    if ltb skip length
    then (if leb size (length - skip)
        then some (size, some (blk + header_size + (rb.blocks blk).offset + skip))
        else count_data (suc fuel) rb blk (length - skip) size >>= λ ret. some (ret, none))
    else elim (rb.blocks blk).next [
      | none ↦ assert (length == skip) (some (0, none))
      | some o ↦ assert ((rb.blocks o).offset == 0) (more o)
    ]

pub ringbuffer_data : Ringbuffer → ℕ → ℕ → ℕ → Option (ℕ × Option ℕ)
ringbuffer_data rb blk size skip = data_loop rb.size rb blk (room_left (rb.blocks blk)) size skip

-- The loop of `ringbuffer_yield`: the block where the rest of the message begins, or NULL.
pub yield_loop : ℕ → Ringbuffer → ℕ → ℕ → ℕ → Option (Ringbuffer × Option ℕ)
yield_loop zero rb blk length skip = none
yield_loop (suc fuel) rb blk length skip =
    let b = rb.blocks blk in
    let rb₁ = unhold rb blk in
    let more : ℕ → Option (Ringbuffer × Option ℕ) =
      λ o. yield_loop fuel rb₁ o (room (rb₁.blocks o)) (skip - length) in
    if ltb skip length
    then some (set_block rb blk (record b { offset = b.offset + skip }), some blk)
    else elim b.next [
      | none ↦ some (rb₁, none)
      | some o ↦ assert ((rb₁.blocks o).offset == 0) (more o)
    ]

pub ringbuffer_yield : Ringbuffer → ℕ → ℕ → Option (Ringbuffer × Option ℕ)
ringbuffer_yield rb blk skip = yield_loop rb.size rb blk (room_left (rb.blocks blk)) skip

-- `memcpy` in the buffer
abbrev pub move : Ringbuffer → ℕ → ℕ → ℕ → Ringbuffer
move rb ptr src n = record rb {
  bytes = λ i. if leb ptr i && ltb i (ptr + n) then rb.bytes (src + (i - ptr)) else rb.bytes i;
}

-- The inner loop of `ringbuffer_copy`, with the block that is read last.
pub copy_parts : ℕ → Ringbuffer → ℕ → ℕ → ℕ → ℕ → ℕ → Option (Ringbuffer × ℕ)
copy_parts zero rb from length src size ptr = none
copy_parts (suc fuel) rb from length src size ptr =
    let rb₁ = move rb ptr src length in
    let more : ℕ → Option (Ringbuffer × ℕ) = λ o.
      copy_parts fuel rb₁ o (room (rb.blocks o)) (o + header_size) (size - length) (ptr + length) in
    if ltb length size
    then ((rb.blocks from).next >>= λ o. assert ((rb.blocks o).offset == 0) (more o))
    else some (move rb ptr src size, from)

-- The loop of `ringbuffer_copy`
pub copy_loop : ℕ → Ringbuffer → ℕ → ℕ → ℕ → ℕ → ℕ → Option (Ringbuffer × ℕ)
copy_loop zero rb from length skip size ptr = none
copy_loop (suc fuel) rb from length skip size ptr =
    let more : ℕ → Option (Ringbuffer × ℕ) =
      λ o. copy_loop fuel rb o (room (rb.blocks o)) (skip - length) size ptr in
    if ltb skip length
    then copy_parts (suc fuel) rb from (length - skip)
        (from + header_size + (rb.blocks from).offset + skip) size ptr
    else (rb.blocks from).next >>= λ o. assert ((rb.blocks o).offset == 0) (more o)

pub ringbuffer_copy : Ringbuffer → ℕ → ℕ → ℕ → Option (Ringbuffer × ℕ)
ringbuffer_copy rb from skip to =
    copy_loop rb.size rb from (room_left (rb.blocks from)) skip (room (rb.blocks to))
      (to + header_size)
    >>= λ copied.
        let (rb₁, last) = copied in
        some (
          set_block rb₁ to (record (rb₁.blocks to) { id = (rb₁.blocks last).id }),
          to + header_size,
        )
