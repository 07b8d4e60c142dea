-- ===== src/Ringbuffer/Collect.antt =====
-- `ringbuffer_collect` in dn/gate/ringbuffer.c: it frees the blocks of the connection that holds the
-- first block behind the head.
use dn_server.Common.{
  ℕ, zero, suc, ◌+◌, ◌≤◌, ◌<◌, ◌≡◌, refl, sym, ap, subst, ◌∙◌, inl, inr, Option, some, leb, ◌==◌,
  ◌&&◌, Bool-cases, ==→eq, arith,
}
use dn_server.Ringbuffer.{
  Block, Ringbuffer, align, header_size, is_id, set_block, block_next, collect_block, collect_loop,
  ringbuffer_collect,
}
use dn_server.Ringbuffer.Layout.{
  Chain, stop, link, Any, IsBlock, IsValid, chain_le, chain_append, chain_lengths, chain_positive,
  chain_rest, set_block_self, set_block_other, block_next-end, block_next-next,
}
use dn_server.Ringbuffer.LastId.{Oldest, last_id-Oldest}

-- What the loop makes of the blocks from an offset on.
pub record Collected (id : Option ℕ) (rb : Ringbuffer) (o : ℕ) (rb' : Ringbuffer) : Type 0 where
  pub same_size : rb'.size ≡ rb.size
  pub same_head : rb'.head ≡ rb.head
  pub same_bytes : rb'.bytes ≡ rb.bytes
  pub lengths : (i : ℕ) → (rb'.blocks i).length ≡ (rb.blocks i).length
  pub before : (i : ℕ) → i < o → rb'.blocks i ≡ rb.blocks i
  pub collected :
      (p : ℕ)
      → Chain Any rb.blocks p o
      → p < rb.size
      → rb'.blocks p ≡ collect_block id (rb.blocks p)

collect_block-length : (id : Option ℕ) (b : Block) → (collect_block id b).length ≡ b.length
collect_block-length id b = elim (Bool-cases (leb header_size b.length && is_id b.id id)) [
  | inl e ↦ rw e refl
  | inr e ↦ rw e refl
]

set_block-lengths :
    (rb : Ringbuffer) (o : ℕ) (b : Block)
    → b.length ≡ (rb.blocks o).length
    → (i : ℕ) → ((set_block rb o b).blocks i).length ≡ (rb.blocks i).length
set_block-lengths rb o b e i = elim (Bool-cases (i == o)) [
  | inl here ↦ rw here (e ∙ ap (λ k. (rb.blocks k).length) (sym (==→eq i o here)))
  | inr there ↦ rw there refl
]

module _ (id : Option ℕ) (rb : Ringbuffer) (o : ℕ) where
  abbrev marked : Ringbuffer
  marked = set_block rb o (collect_block id (rb.blocks o))

  marked-lengths : (i : ℕ) → (marked.blocks i).length ≡ (rb.blocks i).length
  marked-lengths =
      set_block-lengths rb o (collect_block id (rb.blocks o))
        (collect_block-length id (rb.blocks o))

Collected-step :
    (id : Option ℕ) (rb rb' : Ringbuffer) (o : ℕ)
    → 0 < (rb.blocks o).length
    → Collected id (marked id rb o) (o + align (rb.blocks o).length) rb'
    → Collected id rb o rb'
Collected-step id rb rb' o pos c =
    let l = marked-lengths id rb o in
    let other = set_block_other rb o (collect_block id (rb.blocks o)) in
    record {
      same_size = c.same_size;
      same_head = c.same_head;
      same_bytes = c.same_bytes;
      lengths = λ i. c.lengths i ∙ l i;
      before = λ i lt. c.before i (omega arith) ∙ other i (λ e. omega (arith, e));
      collected = here;
    }
  where
    here :
        (p : ℕ)
        → Chain Any rb.blocks p o
        → p < rb.size
        → rb'.blocks p ≡ collect_block id (rb.blocks p)
    here p (stop e) lt =
        subst (λ k. rb'.blocks k ≡ collect_block id (rb.blocks k)) e
          (c.before o (omega arith) ∙ set_block_self rb o (collect_block id (rb.blocks o)))
    here p (link pos' k rest) lt =
        let le = chain_le rest in
        c.collected p (chain_lengths (marked-lengths id rb o) rest) lt
        ∙ ap (collect_block id)
            (set_block_other rb o (collect_block id (rb.blocks o)) p (λ e. omega (arith, e)))

collect_loop-Collected :
    (fuel : ℕ) (id : Option ℕ) (rb : Ringbuffer) (o : ℕ)
    → Chain Any rb.blocks rb.size o
    → o < rb.size
    → rb.size ≤ o + fuel
    → (rb' : Ringbuffer) × (collect_loop fuel id rb o ≡ some rb') × Collected id rb o rb'
unfolding collect_loop
collect_loop-Collected zero id rb o here lt h = absurd (omega arith)
collect_loop-Collected (suc fuel) id rb o here lt h =
    let pos = chain_positive lt here in
    let rb₁ = marked id rb o in
    let lengths = marked-lengths id rb o in
    let o' = o + align (rb.blocks o).length in
    let after = chain_rest lt here in
    let eo : o + align (rb₁.blocks o).length ≡ o' = ap (λ n. o + align n) (lengths o) in
    elim (Bool-cases (o' == rb.size)) [
      | inl whole ↦
          let w : o' ≡ rb.size = ground arith in
          (
            rb₁,
            rw (block_next-end rb₁ o (eo ∙ w)) refl,
            Collected-step id rb rb₁ o pos record {
              same_size = refl;
              same_head = refl;
              same_bytes = refl;
              lengths = λ i. refl;
              before = λ i l. refl;
              collected = λ p c l. absurd (let le = chain_le c in omega (arith, w));
            },
          )
      | inr part ↦
          let l : o' < rb.size = ground (arith, chain_le after) in
          let (rb', e, c) =
            collect_loop-Collected fuel id rb₁ o' (chain_lengths lengths after) l (omega arith) in
          let n : block_next rb₁ o ≡ some (some o') =
            block_next-next rb₁ o (omega (arith, eo, l)) ∙ ap (λ k. some (some k)) eo in
          (rb', rw n e, Collected-step id rb rb' o pos c)
    ]

pub ringbuffer_collect-Collected :
    (rb : Ringbuffer)
    → IsValid rb
    → (rb' : Ringbuffer) × (id : Option ℕ) × (head : ℕ) × (ringbuffer_collect rb ≡ some (rb', id))
      × IsBlock rb head
      × Oldest rb id
      × Collected id (record rb { head = head }) 0 rb'
unfolding ringbuffer_collect
ringbuffer_collect-Collected rb (before, all, lt) =
    let (head, id, e, at_head, oldest) = last_id-Oldest rb (before, all, lt) in
    let rb₁ : Ringbuffer = record rb { head = head } in
    let (rb', e', c) =
      collect_loop-Collected rb.size id rb₁ 0 (chain_append before all) (omega arith)
        (omega arith) in
    (rb', id, head, rw (e, e') refl, at_head, oldest, c)
