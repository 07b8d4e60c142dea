-- ===== src/Ringbuffer/Links/Yield.antt =====
-- `ringbuffer_yield` in dn/gate/ringbuffer.c: the part of a message that was read is given back.
use dn_server.Common.{
  ℕ, zero, suc, ◌+◌, ◌-◌, ◌≤◌, ◌<◌, ◌≡◌, refl, sym, ap, subst, ◌∙◌, inl, inr, true, List, [], ◌∷◌,
  Option, none, some, ltb, ◌==◌, assert, length, drop, Bool-cases, eq→==, arith,
}
use dn_server.Ringbuffer.{Block, Ringbuffer, set_block}
use dn_server.Ringbuffer.Layout.{set_block_self, set_block_other}
use dn_server.Ringbuffer.Links.{room, room_left, unhold, yield_loop, ringbuffer_yield}
use dn_server.Ringbuffer.Links.Contents.{
  Linked, contents, length-payload, length-contents, drop-contents,
}
use dn_server.Ringbuffer.Links.Behind.{
  NotIn, Distinct, contents-set_block, Linked-set_block, Yields, Linked-first, contents-offset,
}

yield_loop-here :
    (fuel : ℕ) (rb : Ringbuffer) (o : ℕ) (ps : List ℕ) (skip : ℕ)
    → Linked rb.blocks o ps
    → Distinct (o ∷ ps)
    → ltb skip (room_left (rb.blocks o)) ≡ true
    → Yields rb o ps skip (yield_loop (suc fuel) rb o (room_left (rb.blocks o)) skip)
unfolding yield_loop
yield_loop-here fuel rb o ps skip linked (fresh, _) here =
    let b : Block = record (rb.blocks o) { offset = (rb.blocks o).offset + skip } in
    let rb' = set_block rb o b in
    (
      rb',
      inl (
        ground (arith, length-contents rb o ps),
        (
          [],
          o,
          ps,
          rw here refl,
          refl,
          tt,
          Linked-first rb o b ps refl fresh linked,
          contents-offset rb o ps skip fresh (ground arith),
        ),
      ),
      λ i out. (let (ne, _) = out in set_block_other rb o b i ne),
    )

-- The first block is read, and the loop goes on with the next one.
Yields-step :
    (rb : Ringbuffer) (o p : ℕ) (ps : List ℕ) (skip : ℕ) (r : Option (Ringbuffer × Option ℕ))
    → NotIn o (p ∷ ps)
    → room_left (rb.blocks o) ≤ skip
    → Yields (unhold rb o) p ps (skip - room_left (rb.blocks o)) r
    → Yields rb o (p ∷ ps) skip r
Yields-step rb o p ps skip r fresh read (rb', goes, others) =
    let b : Block = record (rb.blocks o) { id = none } in
    let same = contents-set_block rb o b p ps fresh in
    let n = length-contents rb o (p ∷ ps) in
    let l : length (contents (unhold rb o) p ps) ≡ length (contents rb p ps) =
      ap (λ xs. length xs) same in
    let free : (rb'.blocks o).id ≡ none = ap (λ c. c.id) (others o fresh ∙ set_block_self rb o b) in
    (
      rb',
      elim goes [
        | inl (lt, (done, o', ps', e, list, all, linked, rest)) ↦ inl (
          omega (arith, n, l, lt),
          (
            o ∷ done,
            o',
            ps',
            e,
            ap (λ qs. o ∷ qs) list,
            (free, all),
            linked,
            rest
                ∙ ap (drop (skip - room_left (rb.blocks o))) same
                ∙ sym (drop-contents rb o (p ∷ ps) skip read),
          ),
        )
        | inr (le, e, all) ↦ inr (omega (arith, n, l, le), e, (free, all))
      ],
      λ i out. (let (ne, rest) = out in others i rest ∙ set_block_other rb o b i ne),
    )

yield_loop-Yields :
    (fuel : ℕ) (rb : Ringbuffer) (o : ℕ) (ps : List ℕ) (skip : ℕ)
    → Linked rb.blocks o ps
    → Distinct (o ∷ ps)
    → length ps < fuel
    → Yields rb o ps skip (yield_loop fuel rb o (room_left (rb.blocks o)) skip)
unfolding yield_loop
yield_loop-Yields zero rb o ps skip linked d h = absurd (omega arith)
yield_loop-Yields (suc fuel) rb o [] skip next d h =
    elim (Bool-cases (ltb skip (room_left (rb.blocks o)))) [
      | inl here ↦ yield_loop-here fuel rb o [] skip next d here
      | inr there ↦
          let b : Block = record (rb.blocks o) { id = none } in
          let rb₁ = unhold rb o in
          let go = λ (x : Option ℕ). elim x as (λ x. Option (Ringbuffer × Option ℕ)) [
            | none ↦ some (rb₁, none)
            | some p ↦
                assert ((rb₁.blocks p).offset == 0)
                  (yield_loop fuel rb₁ p (room (rb₁.blocks p)) (skip - room_left (rb.blocks o)))
          ] in
          (
            rb₁,
            inr (
              ground (arith, length-payload rb o),
              rw there (ap go next),
              (ap (λ c. c.id) (set_block_self rb o b), tt),
            ),
            λ i out. (let (ne, _) = out in set_block_other rb o b i ne),
          )
    ]
yield_loop-Yields (suc fuel) rb o (p ∷ ps) skip (next, at_start, linked) (fresh, d) h =
    elim (Bool-cases (ltb skip (room_left (rb.blocks o)))) [
      | inl here ↦ yield_loop-here fuel rb o (p ∷ ps) skip (next, at_start, linked) (fresh, d) here
      | inr there ↦
          let b : Block = record (rb.blocks o) { id = none } in
          let rb₁ = unhold rb o in
          let (ne, _) = fresh in
          let same = set_block_other rb o b p (λ q. ne (sym q)) in
          let at_start' : (rb₁.blocks p).offset ≡ 0 = ap (λ c. c.offset) same ∙ at_start in
          let r : room_left (rb₁.blocks p) ≡ room (rb₁.blocks p) = omega (arith, at_start') in
          let z : ((rb₁.blocks p).offset == 0) ≡ true = eq→== (rb₁.blocks p).offset 0 at_start' in
          let ih =
            yield_loop-Yields fuel rb₁ p ps (skip - room_left (rb.blocks o))
              (Linked-set_block rb o b p ps fresh linked) d (omega arith) in
          rw (there, next, z)
            (subst
              (λ k.
                Yields rb o (p ∷ ps) skip
                  (yield_loop fuel rb₁ p k (skip - room_left (rb.blocks o))))
              r (Yields-step rb o p ps skip _ fresh (ground arith) ih))
    ]

-- Yielding a part of a message of distinct blocks, fewer than the buffer has bytes: where the
-- message is longer, it goes on behind that part, in one of its blocks, and the blocks before are
-- free; otherwise all its blocks are free and NULL is returned. Other blocks stay as they are.
pub ringbuffer_yield-Yields :
    (rb : Ringbuffer) (blk : ℕ) (ps : List ℕ) (skip : ℕ)
    → Linked rb.blocks blk ps
    → Distinct (blk ∷ ps)
    → length ps < rb.size
    → Yields rb blk ps skip (ringbuffer_yield rb blk skip)
unfolding ringbuffer_yield
ringbuffer_yield-Yields rb blk ps skip linked d h =
    yield_loop-Yields rb.size rb blk ps skip linked d h
