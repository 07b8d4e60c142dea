-- ===== src/Ringbuffer/Shrink.antt =====
-- `ringbuffer_shrink` in dn/gate/ringbuffer.c: a new block gives back what is not needed of it.
use dn_server.Common.{
  ℕ, zero, suc, ◌+◌, ◌-◌, ◌≤◌, ◌<◌, ◌≡◌, ◌≢◌, refl, sym, ap, subst, ◌∙◌, ◌⊎◌, inl, inr, true, false,
  Option, none, some, leb, ◌==◌, Bool-cases, ==→eq, arith,
}
use dn_server.Ringbuffer.{
  Block, Ringbuffer, align, header_size, is_held, set_block, block_next, rest_block,
  ringbuffer_shrink,
}
use dn_server.Ringbuffer.Layout.{
  Chain, stop, link, Any, Free, Gap, Gap-IsHeldAt, IsBlock, IsValid, IsHeldAt, chain_le,
  chain_fours, chain_append, chain_weaken, chain_frame, chain_aligned, chain_positive, chain_rest,
  set_block_self, set_block_other, block_next-next,
}
use dn_server.Ringbuffer.Carve.{taken, rest_block-Free, outside_ne}

-- The block has the length for the given size, and nothing else that is held changes.
abbrev Shrinks : Ringbuffer → ℕ → ℕ → Option Ringbuffer → Type 0
Shrinks rb blk size r =
    (rb' : Ringbuffer) × (r ≡ some rb')
    × IsValid rb'
    × IsBlock rb' blk
    × (((size ≡ 0) × (rb'.head ≡ blk) × (rb'.blocks ≡ rb.blocks))
        ⊎ ((0 < size) × (rb'.blocks blk ≡ record (rb.blocks blk) { length = size + header_size })))
    × ((o : ℕ) → IsHeldAt rb o → IsHeldAt rb' o × (rb'.blocks o ≡ rb.blocks o))

id-Free : (b : Block) → b.id ≡ none → Free b
id-Free b e = rw e (ground arith)

held-new : (b : Block) → is_held b ≡ true → b.id ≡ none → ⊥
held-new b h e = let f = id-Free b e in absurd (ground arith)

module _ (rb : Ringbuffer) (blk n : ℕ) (block : IsBlock rb blk) (new : (rb.blocks blk).id ≡ none)
    (fits : taken (suc n) ≤ align (rb.blocks blk).length) where
  abbrev shorter : Block
  shorter = record (rb.blocks blk) { length = suc n + header_size }

  abbrev shortened : Ringbuffer
  shortened = set_block rb blk shorter

  abbrev old_end : ℕ
  old_end = blk + align (rb.blocks blk).length

  old-Gap : Gap rb blk old_end
  old-Gap =
      let (before, rest, lt) = block in
      record {
        before = before;
        free = link (chain_positive lt rest) (id-Free (rb.blocks blk) new) (stop refl);
        behind = chain_rest lt rest;
      }

  -- All of the block is needed.
  shrink_none :
      taken (suc n) ≡ align (rb.blocks blk).length
      → IsValid rb
      → Shrinks rb blk (suc n) (some shortened)
  shrink_none e (before, all, lt) =
      let self = set_block_self rb blk shorter in
      let other = set_block_other rb blk shorter in
      let aligned : (i : ℕ) → align (shortened.blocks i).length ≡ align (rb.blocks i).length = λ i.
        elim (Bool-cases (i == blk)) [
          | inl here ↦
              rw here
                (omega (arith, e) ∙ ap (λ k. align (rb.blocks k).length) (sym (==→eq i blk here)))
          | inr there ↦ rw there refl
        ] in
      let positive : (i : ℕ) → 0 < (rb.blocks i).length → 0 < (shortened.blocks i).length = λ i pos.
        elim (Bool-cases (i == blk)) [
          | inl here ↦ rw here (omega arith)
          | inr there ↦ rw there pos
        ] in
      let place : (o : ℕ) → IsBlock rb o → IsBlock shortened o = λ o b.
        (let (start, rest, inside) = b in
          (chain_aligned aligned positive start, chain_aligned aligned positive rest, inside)) in
      (
        shortened,
        refl,
        place rb.head (before, all, lt),
        place blk block,
        inr (omega arith, self),
        λ o h.
            (let (b, held) = h in
              let ne : o ≢ blk =
                λ q. held-new (rb.blocks o) held (ap (λ i. (rb.blocks i).id) q ∙ new) in
              ((place o b, subst (λ c. is_held c ≡ true) (sym (other o ne)) held), other o ne)),
      )

  -- A part is given back.
  shrink_some :
      taken (suc n) < align (rb.blocks blk).length
      → Shrinks rb blk (suc n) (ringbuffer_shrink rb blk (suc n))
  unfolding ringbuffer_shrink
  shrink_some h =
      let self = set_block_self rb blk shorter in
      let other = set_block_other rb blk shorter in
      let o = blk + taken (suc n) in
      let gap = old-Gap in
      let (q, four) = chain_fours gap.free in
      let inside = chain_le gap.behind in
      let eo : blk + align (shortened.blocks blk).length ≡ o =
        ap (λ b. blk + align b.length) self ∙ omega arith in
      let next : block_next shortened blk ≡ some (some o) =
        block_next-next shortened blk (omega (arith, eo, inside)) ∙ ap (λ k. some (some k)) eo in
      let left = rest_block (shortened.blocks o) (align (rb.blocks blk).length - taken (suc n)) in
      let rb₂ : Ringbuffer = record (set_block shortened o left) { head = o } in
      let first : rb₂.blocks o ≡ left = set_block_self shortened o left in
      let kept = set_block_other shortened o left in
      let here : rb₂.blocks blk ≡ shorter = kept blk (λ e. omega (arith, e)) ∙ self in
      let outside : (i : ℕ) → (i < blk) ⊎ (old_end ≤ i) → rb₂.blocks i ≡ rb.blocks i = λ i away.
        kept i (outside_ne blk old_end i o away (omega arith) (omega arith))
        ∙ other i (outside_ne blk old_end i blk away (omega arith) (omega arith)) in
      let le : leb (taken (suc n)) (align (rb.blocks blk).length) ≡ true = ground arith in
      let ne : (taken (suc n) == align (rb.blocks blk).length) ≡ false = ground arith in
      let rest : Chain Free rb₂.blocks old_end o =
        link (subst (λ b. 0 < b.length) (sym first) (omega arith))
          (subst Free (sym first)
            (rest_block-Free (shortened.blocks o) (align (rb.blocks blk).length - taken (suc n))))
          (stop (ap (λ b. o + align b.length) first ∙ omega (arith, four))) in
      let one : (kind : Block → Type 0) → kind shorter → Chain kind rb₂.blocks o blk = λ kind k.
        link (subst (λ b. 0 < b.length) (sym here) (omega arith)) (subst kind (sym here) k)
          (stop (ap (λ b. blk + align b.length) here ∙ omega arith)) in
      let gap' : Gap rb₂ blk old_end = record {
        before = chain_frame (λ i l lt. outside i (inl lt)) gap.before;
        free = chain_append (one Free (id-Free shorter new)) rest;
        behind = chain_frame (λ i l lt. outside i (inr l)) gap.behind;
      } in
      let all = chain_append (chain_weaken (λ b f. tt) rest) gap'.behind in
      (
        rb₂,
        rw (le, ne, next) refl,
        (chain_append gap'.before (one Any tt), all, omega arith),
        (gap'.before, chain_append (one Any tt) all, omega arith),
        inr (omega arith, here),
        λ p held.
            (let (kept_held, e, _) = Gap-IsHeldAt rb rb₂ blk old_end p gap gap' refl outside held in
              (kept_held, e)),
      )

-- Shrinking a block that is new, in a valid buffer, to a size that it has room for: the buffer stays
-- valid, the block has that size, or is the head where the size is 0, and every block that is held
-- stays as it is.
ringbuffer_shrink-Shrinks :
    (rb : Ringbuffer) (blk size : ℕ)
    → IsValid rb
    → IsBlock rb blk
    → (rb.blocks blk).id ≡ none
    → taken size ≤ align (rb.blocks blk).length
    → Shrinks rb blk size (ringbuffer_shrink rb blk size)
unfolding ringbuffer_shrink
ringbuffer_shrink-Shrinks rb blk zero valid block new fits =
    (record rb { head = blk }, refl, block, block, inl (refl, refl, refl), λ o h. (h, refl))
ringbuffer_shrink-Shrinks rb blk (suc n) valid block new fits =
    elim (Bool-cases (taken (suc n) == align (rb.blocks blk).length)) [
      | inl e ↦
          let le : leb (taken (suc n)) (align (rb.blocks blk).length) ≡ true = ground arith in
          rw (le, e)
            (shrink_none rb blk n block new fits
              (==→eq (taken (suc n)) (align (rb.blocks blk).length) e) valid)
      | inr ne ↦ shrink_some rb blk n block new fits (ground arith)
    ]
