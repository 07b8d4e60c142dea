-- ===== src/Ringbuffer/Rounds.antt =====
-- `ringbuffer_alloc` in dn/gate/ringbuffer.c: where its rounds end, and what it allocates.
use dn_server.Common.{
  ℕ, zero, suc, ◌+◌, ◌-◌, ◌≤◌, ◌<◌, ◌≡◌, refl, sym, subst, ◌⊎◌, inl, inr, some, leb, ◌==◌,
  Bool-cases, arith,
}
use dn_server.Ringbuffer.{
  Ringbuffer, align, is_held, Round, held, ended, allocated, failed, allocated_round, alloc_head,
  alloc_round, Allocation, block, null, failure, alloc_again, ringbuffer_alloc,
}
use dn_server.Ringbuffer.Layout.{
  Chain, stop, link, Free, Gap, Gap-IsHeldAt, IsBlock, IsValid, IsHeldAt, chain_le, chain_fours,
  chain_append, chain_weaken, chain_split, chain_positive, chain_rest, block_next-end,
  block_next-next,
}
use dn_server.Ringbuffer.Carve.{
  new_block, taken, Carved, alloc_head-Carved, Carved-Gap, Carved-IsBlock, Carved-IsValid,
}

-- Where a round from the head may end.
abbrev Ends : Ringbuffer → ℕ → Round → Type 0
Ends rb size held = (p : ℕ) × IsHeldAt rb p
Ends rb size ended = Chain Free rb.blocks rb.size rb.head × (rb.size < rb.head + taken size)
Ends rb size (allocated rb' blk) =
    (blk ≡ rb.head) × ((k : ℕ) × Gap rb rb.head k × Carved rb size k rb')
Ends rb size failed = ⊥

-- The round at a block behind free ones.
alloc_round-Ends :
    (fuel : ℕ) (rb : Ringbuffer) (size free_size o : ℕ)
    → IsValid rb
    → Chain Free rb.blocks o rb.head
    → rb.head + free_size ≡ o
    → o < rb.size
    → rb.size ≤ o + fuel
    → Ends rb size (alloc_round fuel rb size free_size o)
unfolding alloc_round
alloc_round-Ends zero rb size free_size o valid free sum lt fuel = absurd (omega arith)
alloc_round-Ends (suc fuel) rb size free_size o valid free sum lt h =
    let (before, all, _) = valid in
    let here = chain_split (omega (arith, lt)) free all in
    let start = chain_append before (chain_weaken (λ b f. tt) free) in
    let pos = chain_positive lt here in
    let o' = o + align (rb.blocks o).length in
    let after = chain_rest lt here in
    let sum' : rb.head + (free_size + align (rb.blocks o).length) ≡ o' = omega (arith, sum) in
    elim (Bool-cases (is_held (rb.blocks o))) [
      | inl taken_one ↦ rw taken_one (o, ((start, here, lt), taken_one))
      | inr free_one ↦
          let free' = chain_append free (link pos free_one (stop refl)) in
          elim (Bool-cases (leb (taken size) (free_size + align (rb.blocks o).length))) [
            | inl fits ↦
                let (q, four) = chain_fours free' in
                let (rb', e, carved) =
                  alloc_head-Carved rb size o' (ground arith) (chain_le after) q four in
                let total : o' - rb.head ≡ free_size + align (rb.blocks o).length =
                  omega (arith, sum) in
                let e' : alloc_head rb (free_size + align (rb.blocks o).length) size
                    ≡ some (rb', rb.head) =
                  rw total at e in
                rw (free_one, fits, e')
                  (unfold allocated_round in
                    (refl, (o', record { before = before; free = free'; behind = after }, carved)))
            | inr short ↦ elim (Bool-cases (o' == rb.size)) [
              | inl whole ↦
                  let w : o' ≡ rb.size = ground arith in
                  rw (free_one, short, block_next-end rb o w)
                    (subst (λ n. Chain Free rb.blocks n rb.head) w free', ground arith)
              | inr part ↦
                  let l : o' < rb.size = ground (arith, chain_le after) in
                  rw (free_one, short, block_next-next rb o l)
                    (alloc_round-Ends fuel rb size (free_size + align (rb.blocks o).length) o' valid
                      free' sum' l (omega arith))
            ]
          ]
    ]

-- Every block that is held stays, and the new block does not overlap it.
abbrev Keeps : Ringbuffer → Ringbuffer → ℕ → ℕ → Type 0
Keeps rb rb' blk size =
    (o : ℕ)
    → IsHeldAt rb o
    → IsHeldAt rb' o
      × (rb'.blocks o ≡ rb.blocks o)
      × ((o + align (rb.blocks o).length ≤ blk) ⊎ (blk + taken size ≤ o))

-- What `ringbuffer_alloc` may do.
abbrev pub Allocates : Ringbuffer → ℕ → Allocation → Type 0
Allocates rb size (block rb' blk) =
    IsValid rb'
    × (rb'.size ≡ rb.size)
    × (rb'.bytes ≡ rb.bytes)
    × IsBlock rb' blk
    × (rb'.blocks blk ≡ new_block size)
    × (blk + taken size ≤ rb.size)
    × Keeps rb rb' blk size
    × ((o : ℕ) → IsHeldAt rb' o → IsHeldAt rb o)
Allocates rb size (null rb') =
    IsValid rb'
    × (rb'.size ≡ rb.size)
    × (rb'.blocks ≡ rb.blocks)
    × (rb'.bytes ≡ rb.bytes)
    × (((o : ℕ) × IsHeldAt rb o) ⊎ (rb.size < taken size))
Allocates rb size failure = ⊥

Carved-Allocates :
    (rb rb' : Ringbuffer) (size k : ℕ)
    → Gap rb rb.head k
    → Carved rb size k rb'
    → Allocates rb size (block rb' rb.head)
Carved-Allocates rb rb' size k gap carved =
    let gap' = Carved-Gap rb rb' size k gap carved in
    let le = chain_le carved.rest in
    let le' = chain_le gap.behind in
    (
      Carved-IsValid rb rb' size k gap carved,
      carved.same_size,
      carved.same_bytes,
      Carved-IsBlock rb rb' size k gap carved,
      carved.new,
      omega (arith, le, le'),
      λ o h.
          (let (held', e, apart) =
              Gap-IsHeldAt rb rb' rb.head k o gap gap' carved.same_size carved.outside h in
            (held', e, elim apart [ inl l ↦ inl l | inr r ↦ inr (omega (arith, le)) ])),
      λ o h.
          (let (held', _, _) =
              Gap-IsHeldAt rb' rb rb.head k o gap' gap (sym carved.same_size)
                (λ i away. sym (carved.outside i away)) h in
            held'),
    )

allocated-Allocates :
    (rb rb' : Ringbuffer) (size blk : ℕ)
    → Ends rb size (allocated rb' blk)
    → Allocates rb size (block rb' blk)
allocated-Allocates rb rb' size blk (e, (k, gap, carved)) =
    subst (λ b. Allocates rb size (block rb' b)) (sym e) (Carved-Allocates rb rb' size k gap carved)

alloc_again-Allocates :
    (rb : Ringbuffer) (size : ℕ)
    → IsValid rb
    → rb.head ≡ 0
    → Allocates rb size (alloc_again rb size)
unfolding alloc_again
alloc_again-Allocates rb size (before, all, lt) start =
    by_round (alloc_round rb.size rb size 0 rb.head) (
      alloc_round-Ends rb.size rb size 0 rb.head (before, all, lt) (stop refl) (omega arith) lt
        (omega arith))
  where
    by_round :
        (r : Round)
        → Ends rb size r
        → Allocates rb size (elim r [
          | held ↦ null rb
          | ended ↦ null (record rb { head = 0 })
          | allocated rb' blk ↦ block rb' blk
          | failed ↦ failure
        ])
    by_round held h = ((before, all, lt), refl, refl, refl, inl h)
    by_round ended (free, short) = (
      (stop refl, chain_append before all, omega arith),
      refl,
      refl,
      refl,
      inr (omega (arith, start)),
    )
    by_round (allocated rb' blk) h = allocated-Allocates rb rb' size blk h
    by_round failed h = absurd h

-- The head is of no consequence for what is held.
Allocates-head :
    (rb : Ringbuffer) (size head : ℕ) (a : Allocation)
    → Allocates (record rb { head = head }) size a
    → Allocates rb size a
Allocates-head rb size head (block rb' blk) h = h
Allocates-head rb size head (null rb') h = h
Allocates-head rb size head failure h = h

-- An allocation from a valid buffer gives a block of the given size that overlaps no block that is
-- held, all of which stay as they are, or it gives NULL and changes nothing but the head: then
-- some block is held, or the buffer is too small.
pub ringbuffer_alloc-Allocates :
    (rb : Ringbuffer) (size : ℕ) → IsValid rb → Allocates rb size (ringbuffer_alloc rb size)
unfolding ringbuffer_alloc
ringbuffer_alloc-Allocates rb size (before, all, lt) =
    by_round (alloc_round rb.size rb size 0 rb.head) (
      alloc_round-Ends rb.size rb size 0 rb.head (before, all, lt) (stop refl) (omega arith) lt
        (omega arith))
  where
    by_round :
        (r : Round)
        → Ends rb size r
        → Allocates rb size (elim r [
          | held ↦ null rb
          | ended ↦ alloc_again (record rb { head = 0 }) size
          | allocated rb' blk ↦ block rb' blk
          | failed ↦ failure
        ])
    by_round held h = ((before, all, lt), refl, refl, refl, inl h)
    by_round ended h =
        let rb₀ : Ringbuffer = record rb { head = 0 } in
        Allocates-head rb size 0 (alloc_again rb₀ size)
          (alloc_again-Allocates rb₀ size (stop refl, chain_append before all, omega arith) refl)
    by_round (allocated rb' blk) h = allocated-Allocates rb rb' size blk h
    by_round failed h = absurd h
