-- ===== src/Ringbuffer/Carve.antt =====
-- `_alloc` in dn/gate/ringbuffer.c: what it makes of the free blocks at the head.
use dn_server.Common.{
  ℕ, ◌+◌, ◌-◌, ◌*◌, ◌≤◌, ◌<◌, ◌≡◌, ◌≢◌, refl, sym, ap, subst, ◌∙◌, ◌⊎◌, inl, inr, none, some, ltb,
  ◌==◌, Bool-cases, arith,
}
use dn_server.Ringbuffer.{Block, Ringbuffer, align, header_size, set_block, rest_block, alloc_head}
use dn_server.Ringbuffer.Layout.{
  Chain, stop, link, Any, Free, chain_le, chain_append, chain_frame, chain_weaken, Gap, IsBlock,
  IsValid, set_block_self, set_block_other, block_next-end, block_next-next,
}

abbrev pub new_block : ℕ → Block
new_block size = record { length = header_size + size; offset = 0; id = none; next = none }

abbrev pub taken : ℕ → ℕ
taken size = align (header_size + size)

-- The free bytes from the head to `k` become a new block and at most one free block behind it.
pub record Carved (rb : Ringbuffer) (size k : ℕ) (rb' : Ringbuffer) : Type 0 where
  pub same_size : rb'.size ≡ rb.size
  pub same_bytes : rb'.bytes ≡ rb.bytes
  pub new : rb'.blocks rb.head ≡ new_block size
  pub rest : Chain Free rb'.blocks k (rb.head + taken size)
  pub outside : (i : ℕ) → (i < rb.head) ⊎ (k ≤ i) → rb'.blocks i ≡ rb.blocks i
  pub new_head :
      ((rb'.head ≡ rb.head + taken size) × (rb.head + taken size < rb.size))
      ⊎ ((rb'.head ≡ 0) × (rb.head + taken size ≡ rb.size))

pub rest_block-Free : (b : Block) (n : ℕ) → Free (rest_block b n)
rest_block-Free b n = ground arith

pub outside_ne : (a k i o : ℕ) → (i < a) ⊎ (k ≤ i) → a ≤ o → o < k → i ≢ o
outside_ne a k i o (inl h) le lt = λ e. omega (arith, e)
outside_ne a k i o (inr h) le lt = λ e. omega (arith, e)

pub alloc_head-Carved :
    (rb : Ringbuffer) (size k : ℕ)
    → rb.head + taken size ≤ k
    → k ≤ rb.size
    → (q : ℕ) → k ≡ rb.head + q * 4
    → (rb' : Ringbuffer) × (alloc_head rb (k - rb.head) size ≡ some (rb', rb.head))
      × Carved rb size k rb'
unfolding alloc_head
alloc_head-Carved rb size k fits inside q four =
    let rb₁ = set_block rb rb.head (new_block size) in
    let new = set_block_self rb rb.head (new_block size) in
    let other = set_block_other rb rb.head (new_block size) in
    let l : (rb₁.blocks rb.head).length ≡ header_size + size = ap (λ b. b.length) new in
    let o = rb.head + taken size in
    let o' : rb.head + align (rb₁.blocks rb.head).length ≡ o = ap (λ n. rb.head + align n) l in
    elim (Bool-cases (o == rb.size)) [
      | inl whole ↦
          let rb' : Ringbuffer = record rb₁ { head = 0 } in
          (
            rb',
            rw (block_next-end rb₁ rb.head (ground arith)) refl,
            record {
              same_size = refl;
              same_bytes = refl;
              new = new;
              rest = stop (ground arith);
              outside =
                  λ i h. other i (outside_ne rb.head k i rb.head h (omega arith) (omega arith));
              new_head = inr (refl, ground arith);
            },
          )
      | inr part ↦
          let next = block_next-next rb₁ rb.head (ground arith) in
          let rb₂ : Ringbuffer = record rb₁ { head = o } in
          let left = rest_block (rb₂.blocks o) (k - rb.head - taken size) in
          let rb₃ = set_block rb₂ o left in
          elim (Bool-cases (ltb (taken size) (k - rb.head))) [
            | inl more ↦
                let n : k - rb.head - taken size ≡ k - o = omega arith in
                let first : rb₃.blocks o ≡ left = set_block_self rb₂ o left in
                let kept : (i : ℕ) → i ≢ o → rb₃.blocks i ≡ rb₂.blocks i =
                  set_block_other rb₂ o left in
                (
                  rb₃,
                  rw (next, o', more) refl,
                  record {
                    same_size = refl;
                    same_bytes = refl;
                    new = kept rb.head (λ e. omega (arith, e)) ∙ new;
                    rest =
                        link (subst (λ b. 0 < b.length) (sym first) (ground arith))
                          (subst Free (sym first)
                            (rest_block-Free (rb₂.blocks o) (k - rb.head - taken size)))
                          (stop (ap (λ b. o + align b.length) first ∙ omega (arith, four)));
                    outside = λ i h.
                        kept i (outside_ne rb.head k i o h (omega arith) (ground arith))
                        ∙ other i (outside_ne rb.head k i rb.head h (omega arith) (omega arith));
                    new_head = inl (refl, ground arith);
                  },
                )
            | inr all ↦ (
              rb₂,
              rw (next, o', all) refl,
              record {
                same_size = refl;
                same_bytes = refl;
                new = new;
                rest = stop (ground arith);
                outside =
                    λ i h. other i (outside_ne rb.head k i rb.head h (omega arith) (omega arith));
                new_head = inl (refl, ground arith);
              },
            )
          ]
    ]

module _ (rb rb' : Ringbuffer) (size k : ℕ) (gap : Gap rb rb.head k)
    (carved : Carved rb size k rb') where
  pub Carved-Gap : Gap rb' rb.head k
  Carved-Gap = record {
    before = chain_frame (λ i le lt. carved.outside i (inl lt)) gap.before;
    free =
        link (subst (λ b. 0 < b.length) (sym carved.new) (omega arith))
          (subst Free (sym carved.new) (ground arith))
          (subst (λ b. Chain Free rb'.blocks k (rb.head + align b.length)) (sym carved.new)
            carved.rest);
    behind =
        subst (λ n. Chain Any rb'.blocks n k) (sym carved.same_size)
          (chain_frame (λ i le lt. carved.outside i (inr le)) gap.behind);
  }

  pub Carved-IsBlock : IsBlock rb' rb.head
  Carved-IsBlock =
      let g = Carved-Gap in
      let le = chain_le g.behind in
      let le' = chain_le carved.rest in
      (g.before, chain_append (chain_weaken (λ b f. tt) g.free) g.behind, omega (arith, le, le'))

  -- The head is behind the new block, or at the start after a block that ends the buffer.
  pub Carved-IsValid : IsValid rb'
  Carved-IsValid =
      let g = Carved-Gap in
      let (_, all, lt) = Carved-IsBlock in
      let rest = chain_append (chain_weaken (λ b f. tt) carved.rest) g.behind in
      elim carved.new_head [
        | inl (e, inside) ↦
            let one =
              link (subst (λ b. 0 < b.length) (sym carved.new) (omega arith)) tt
                (stop (ap (λ b. rb.head + align b.length) carved.new)) in
            subst (IsBlock rb') (sym e)
              (chain_append g.before one, rest, omega (arith, inside, carved.same_size))
        | inr (e, ends) ↦
            subst (IsBlock rb') (sym e) (stop refl, chain_append g.before all, omega arith)
      ]
