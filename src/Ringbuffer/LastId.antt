-- ===== src/Ringbuffer/LastId.antt =====
-- `_last_id` in dn/gate/ringbuffer.c: the connection that holds the first block behind the head.
use dn_server.Common.{
  ℕ, zero, suc, ◌+◌, ◌≤◌, ◌<◌, ◌≡◌, refl, subst, ◌⊎◌, inl, inr, true, false, Option, none, some,
  ◌==◌, Bool-cases, Option-cases, arith,
}
use dn_server.Ringbuffer.{Block, Ringbuffer, align, is_held, last_id_round, last_id}
use dn_server.Ringbuffer.Layout.{
  Chain, stop, link, Free, IsBlock, IsValid, IsHeldAt, chain_le, chain_append, chain_weaken,
  chain_positive, chain_rest, block_next-end, block_next-next,
}

-- The first block that is held from an offset on, or the free end of the buffer.
abbrev First : Ringbuffer → ℕ → Option ℕ → Type 0
First rb o none = Chain Free rb.blocks rb.size o
First rb o (some id) =
    (p : ℕ) × Chain Free rb.blocks p o × IsHeldAt rb p × ((rb.blocks p).id ≡ some id)

First-behind :
    (rb : Ringbuffer) (o o' : ℕ) (r : Option ℕ)
    → Chain Free rb.blocks o' o
    → First rb o' r
    → First rb o r
First-behind rb o o' none c h = chain_append c h
First-behind rb o o' (some id) c (p, free, h, e) = (p, chain_append c free, h, e)

held-id : (b : Block) → is_held b ≡ true → (id : ℕ) × (b.id ≡ some id)
held-id b h = elim (Option-cases b.id) [
  | inl e ↦ absurd (let no : is_held b ≡ false = rw e (ground arith) in ground arith)
  | inr (id, e) ↦ (id, e)
]

last_id_round-First :
    (fuel : ℕ) (rb : Ringbuffer) (o : ℕ)
    → IsBlock rb o
    → rb.size ≤ o + fuel
    → (r : Option ℕ) × (last_id_round fuel rb o ≡ some r) × First rb o r
unfolding last_id_round
last_id_round-First zero rb o (start, here, lt) h = absurd (omega arith)
last_id_round-First (suc fuel) rb o (start, here, lt) h =
    let pos = chain_positive lt here in
    let o' = o + align (rb.blocks o).length in
    let after = chain_rest lt here in
    elim (Bool-cases (is_held (rb.blocks o))) [
      | inl one ↦
          let (id, e) = held-id (rb.blocks o) one in
          (some id, rw (one, e) refl, (o, stop refl, ((start, here, lt), one), e))
      | inr free ↦
          let step : Chain Free rb.blocks o' o = link pos free (stop refl) in
          elim (Bool-cases (o' == rb.size)) [
            | inl whole ↦
                let w : o' ≡ rb.size = ground arith in
                (
                  none,
                  rw (free, block_next-end rb o w) refl,
                  subst (λ n. Chain Free rb.blocks n o) w step,
                )
            | inr part ↦
                let l : o' < rb.size = ground (arith, chain_le after) in
                let (r, e, first) =
                  last_id_round-First fuel rb o'
                    (chain_append start (chain_weaken (λ b f. tt) step), after, l) (omega arith) in
                (r, rw (free, block_next-next rb o l) e, First-behind rb o o' r step first)
          ]
    ]

-- What `_last_id` finds: from the head to the end of the buffer, and then from its start.
abbrev pub Oldest : Ringbuffer → Option ℕ → Type 0
Oldest rb none = Chain Free rb.blocks rb.size 0
Oldest rb (some id) =
    (p : ℕ) × (Chain Free rb.blocks p rb.head
      ⊎ (Chain Free rb.blocks rb.size rb.head × Chain Free rb.blocks p 0))
    × IsHeldAt rb p
    × ((rb.blocks p).id ≡ some id)

First-head : (rb : Ringbuffer) (r : Option ℕ) → First (record rb { head = 0 }) 0 r → First rb 0 r
First-head rb none h = h
First-head rb (some id) h = h

First-Oldest :
    (rb : Ringbuffer) (r : Option ℕ)
    → Chain Free rb.blocks rb.size rb.head
    → First rb 0 r
    → Oldest rb r
First-Oldest rb none free h = h
First-Oldest rb (some id) free (p, c, h, e) = (p, inr (free, c), h, e)

pub last_id-Oldest :
    (rb : Ringbuffer)
    → IsValid rb
    → (head : ℕ) × (id : Option ℕ) × (last_id rb ≡ some (record rb { head = head }, id))
      × IsBlock rb head
      × Oldest rb id
unfolding last_id
last_id-Oldest rb (before, all, lt) =
    let (r, e, first) = last_id_round-First rb.size rb rb.head (before, all, lt) (omega arith) in
    by_round r e first
  where
    from_start : IsBlock rb 0
    from_start = (stop refl, chain_append before all, omega arith)

    by_round :
        (r : Option ℕ)
        → last_id_round rb.size rb rb.head ≡ some r
        → First rb rb.head r
        → (head : ℕ) × (id : Option ℕ) × (last_id rb ≡ some (record rb { head = head }, id))
          × IsBlock rb head
          × Oldest rb id
    by_round (some id) e (p, free, h, eq) =
        (rb.head, some id, rw e refl, (before, all, lt), (p, inl free, h, eq))
    by_round none e free =
        let rb₀ : Ringbuffer = record rb { head = 0 } in
        let (r, e₀, first) = last_id_round-First rb.size rb₀ 0 from_start (omega arith) in
        let first' : First rb 0 r = First-head rb r first in
        (0, r, rw (e, e₀) refl, from_start, First-Oldest rb r free first')
