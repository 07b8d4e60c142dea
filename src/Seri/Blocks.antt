-- ===== src/Seri/Blocks.antt =====
-- The write blocks of dn/lualib-src/lua-seri.c: `wb_push`, `wb_init` of a new chain, `wb_close` and
-- `_seri`. A block is the list of its cells.
pub mod Contents
pub mod Message
use dn_server.Common.{
  ℕ, zero, suc, ◌+◌, ◌-◌, ◌%◌, ◌^◌, Bool, true, false, List, [], ◌∷◌, ◌++◌, Option, none, some, ltb,
  leb, ◌==◌, if◌then◌else◌, length, replicate, take, drop, ◌>>=◌,
}
use dn_server.Seri.{Value, Pushes, bytes, pack_from}
use dn_server.Seri.Read.{from_bytes}

abbrev pub block_size : ℕ
block_size = 128

abbrev pub Buffer : Type 0
Buffer = List ℕ

-- `blk_alloc`. What a new block holds is copied nowhere.
abbrev pub blk_alloc : Buffer
blk_alloc = replicate block_size 0

-- `struct write_block`: the chain is `full` and then `current`.
pub record WriteBlock : Type 0 where
  pub full : List Buffer
  pub current : Buffer
  pub ptr : ℕ
  pub len : ℕ

-- `memcpy` to the cells from an index on
abbrev pub splice : Buffer → ℕ → List ℕ → Buffer
splice [] p bs = []
splice (c ∷ cells) (suc p) bs = c ∷ splice cells p bs
splice (c ∷ cells) zero [] = c ∷ cells
splice (c ∷ cells) zero (b ∷ bs) = b ∷ splice cells zero bs

-- The lines after `_again`.
abbrev pub next_block : WriteBlock → WriteBlock
next_block b = record b { full = b.full ++ b.current ∷ []; current = blk_alloc; ptr = 0 }

-- One copy; `_again` resets `ptr`, which the code leaves alone before.
abbrev pub copy : WriteBlock → List ℕ → WriteBlock
copy b bs = record b {
  current = splice b.current b.ptr bs;
  ptr = b.ptr + length bs;
  len = b.len + length bs;
}

-- The test and the jump of `wb_push`, with fuel.
pub push_loop : ℕ → WriteBlock → List ℕ → Option WriteBlock
push_loop zero b bs = none
push_loop (suc fuel) b bs =
    let room = block_size - b.ptr in
    let again = push_loop fuel (next_block (copy b (take room bs))) (drop room bs) in
    if leb (b.ptr + length bs) block_size then some (copy b bs) else again

-- `wb_push`. Each round copies a byte or more, which bounds the fuel.
pub wb_push : WriteBlock → List ℕ → Option WriteBlock
wb_push b bs = push_loop (length bs + 1) (if b.ptr == block_size then next_block b else b) bs

pub wb_pushes : WriteBlock → Pushes → Option WriteBlock
wb_pushes b [] = some b
wb_pushes b (p ∷ ps) = wb_push b p >>= λ b'. wb_pushes b' ps

-- `wb_init` of a new chain
pub wb_init : Option WriteBlock
wb_init = wb_push (record { full = []; current = blk_alloc; ptr = 0; len = 0 }) (bytes 4 0)

abbrev pub write_first : List Buffer → Buffer → List ℕ → List Buffer
write_first [] current bs = splice current 0 bs ∷ []
write_first (b ∷ full) current bs = splice b 0 bs ∷ (full ++ current ∷ [])

-- `wb_close`: the chain with the length in its first cells.
pub wb_close : WriteBlock → List Buffer
wb_close b = write_first b.full b.current (bytes 4 b.len)

-- The loop of `_seri`; `none` is a read past the chain.
pub copy_blocks : ℕ → List Buffer → Option (List ℕ)
copy_blocks len [] = if len == 0 then some [] else none
copy_blocks len (b ∷ blocks) =
    let rest = copy_blocks (len - block_size) blocks in
    if len == 0
    then some []
    else if leb block_size len
    then (rest >>= λ bs. some (b ++ bs))
    else some (take len b)

-- `_seri`, and `_seri_args`: the bytes of a chain.
pub seri : List Buffer → Option (List ℕ)
seri [] = none
seri (b ∷ blocks) =
    let len = (from_bytes (take 4 b) + 2 ^ 32 - 4) % 2 ^ 32 in
    if ltb len (block_size - 4)
    then some (take len (drop 4 b))
    else copy_blocks (len - (block_size - 4)) blocks >>= λ bs.
        some (take (block_size - 4) (drop 4 b) ++ bs)

-- `_luaseri_pack`
pub luaseri_pack : List Value → Option (List ℕ)
luaseri_pack vs =
    pack_from vs >>= λ ps. wb_init >>= λ b. wb_pushes b ps >>= λ b'. seri (wb_close b')
