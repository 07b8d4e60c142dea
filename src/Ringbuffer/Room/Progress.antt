-- ===== src/Ringbuffer/Room/Progress.antt =====
-- Making room in dn/gate/mread.c ends, with a block or with the connection that asked for it.
use dn_server.Common.{
  ℕ, zero, suc, ◌≤◌, ◌<◌, ◌≡◌, refl, sym, ap, subst, ◌∙◌, inl, inr, false, [], some, ◌==◌,
  if◌then◌else◌, Bool-cases, ==→eq, arith,
}
use dn_server.Ringbuffer.{
  Ringbuffer, is_held, Allocation, block, null, failure, ringbuffer_alloc, ringbuffer_collect,
}
use dn_server.Ringbuffer.Layout.{IsBlock, IsValid, IsHeldAt, chain_append}
use dn_server.Ringbuffer.Carve.{taken}
use dn_server.Ringbuffer.Rounds.{Allocates, ringbuffer_alloc-Allocates}
use dn_server.Ringbuffer.Collect.{Collected, ringbuffer_collect-Collected}
use dn_server.Ringbuffer.Oldest.{Collected-IsBlock, Collected-held, Collected-Freed}
use dn_server.Ringbuffer.Room.{Room, found, own, broken, closing, make_room}
use dn_server.Ringbuffer.Room.Count.{count, count_le, count-freed}
use dn_server.Ringbuffer.Room.Survives.{
  Survives, MakesRoom, IsHeldAt-same, Survives-step, closing-MakesRoom, MakesRoom-same, Oldest-some,
}

abbrev held_blocks : Ringbuffer → ℕ
held_blocks rb = count rb.size rb.blocks rb.size 0

held_blocks-Collected :
    (rb rb' : Ringbuffer) (c q : ℕ)
    → IsHeldAt rb q
    → (rb.blocks q).id ≡ some c
    → Collected (some c) rb 0 rb'
    → held_blocks rb' < held_blocks rb
held_blocks-Collected rb rb' c q ((start, rest, lt), held) e collected =
    let freed : is_held (rb'.blocks q) ≡ false =
      elim (Collected-Freed (some c) rb rb' q collected ((start, rest, lt), held)) [
        | inl (_, f) ↦ f
        | inr (ne, _) ↦ absurd (ne e)
      ] in
    let lower =
      count-freed rb.blocks rb'.blocks collected.lengths rb.size rb.size 0 q
        (λ p d l. Collected-held (some c) rb rb' p collected d l) (chain_append start rest) start lt
        (omega arith) held freed in
    subst (λ n. count n rb'.blocks n 0 < held_blocks rb) (sym collected.same_size) lower

-- A round that finds a block that is held.
collect-MakesRoom :
    (rb : Ringbuffer) (rd id p : ℕ) (more : Ringbuffer → Room)
    → IsValid rb
    → IsHeldAt rb p
    → ((rb' : Ringbuffer)
        → IsValid rb'
        → rb'.size ≡ rb.size
        → held_blocks rb' < held_blocks rb
        → MakesRoom rb' rd id (more rb'))
    → MakesRoom rb rd id (elim (ringbuffer_collect rb) [
      | some (rb', some c) ↦ closing c (if id == c then own rb' [] else more rb')
      | _ ↦ broken
    ])
collect-MakesRoom rb rd id p more valid held again =
    let (rb', r, head, e, at_head, oldest, collected) = ringbuffer_collect-Collected rb valid in
    let (c, q, some_c, held_q, id_q) = Oldest-some rb p held r oldest in
    let collected' : Collected (some c) (record rb { head = head }) 0 rb' =
      subst (λ k. Collected k (record rb { head = head }) 0 rb') some_c collected in
    let valid' : IsValid rb' =
      subst (IsBlock rb') (sym collected.same_head)
        (Collected-IsBlock r (record rb { head = head }) rb' 0 head collected at_head) in
    let rb₁ : Ringbuffer = record rb { head = head } in
    let here : Survives rb' rb' [] = (λ p h. inr (h, refl), λ p h. h, λ p id h e closed. closed) in
    rw (e, some_c)
      (MakesRoom-same rb rb₁ rd id (closing c (if id == c then own rb' [] else more rb')) refl refl
        (elim (Bool-cases (id == c)) [
          | inl mine ↦
              rw mine
                (valid', inl (==→eq id c mine), Survives-step c rb₁ rb' rb' [] collected' here)
          | inr other ↦ rw other (
              closing-MakesRoom rb₁ rb' rd id c (more rb') (λ q. absurd (ground arith)) collected'
                (again rb' valid' collected.same_size
                  (held_blocks-Collected rb₁ rb' c q held_q id_q collected')))
        ]))

alloc-MakesRoom :
    (rb : Ringbuffer) (rd id : ℕ) (more : Ringbuffer → Room)
    → taken rd ≤ rb.size
    → ((rb' : Ringbuffer)
        → IsValid rb'
        → rb'.size ≡ rb.size
        → held_blocks rb' < held_blocks rb
        → MakesRoom rb' rd id (more rb'))
    → (a : Allocation) → Allocates rb rd a
    → MakesRoom rb rd id (elim a [
      | block rb' blk ↦ found rb' blk []
      | failure ↦ broken
      | null rb' ↦ elim (ringbuffer_collect rb') [
        | some (rb'', some c) ↦ closing c (if id == c then own rb'' [] else more rb'')
        | _ ↦ broken
      ]
    ])
alloc-MakesRoom rb rd id more fits again (block rb' blk)
      (valid, size, bytes, at, new, inside, keeps, only) =
    (
      valid,
      at,
      new,
      (λ m. m),
      (λ p h. (let (held, e, _) = keeps p h in inr (held, e)), only, λ p id h e closed. closed),
    )
alloc-MakesRoom rb rd id more fits again (null rb') (valid, size, same, bytes, inr small) =
    absurd (omega arith)
alloc-MakesRoom rb rd id more fits again (null rb') (valid, size, same, bytes, inl (p, held)) =
    let n : held_blocks rb' ≡ held_blocks rb =
      ap (λ k. count k rb'.blocks k 0) size ∙ ap (λ m. count rb.size m rb.size 0) same in
    MakesRoom-same rb rb' rd id
      (elim (ringbuffer_collect rb') [
        | some (rb'', some c) ↦ closing c (if id == c then own rb'' [] else more rb'')
        | _ ↦ broken
      ])
      size same
      (collect-MakesRoom rb' rd id p more valid (IsHeldAt-same rb rb' p size same held)
        (λ rb'' v s lt. again rb'' v (s ∙ size) (omega (arith, n, lt))))
alloc-MakesRoom rb rd id more fits again failure h = absurd h

make_room-bounded :
    (fuel : ℕ) (rb : Ringbuffer) (rd id : ℕ)
    → IsValid rb
    → taken rd ≤ rb.size
    → held_blocks rb < fuel
    → MakesRoom rb rd id (make_room fuel rb rd id)
unfolding make_room
make_room-bounded zero rb rd id valid fits h = absurd (omega arith)
make_room-bounded (suc fuel) rb rd id valid fits h =
    alloc-MakesRoom rb rd id (λ rb'. make_room fuel rb' rd id) fits
      (λ rb' v s lt. make_room-bounded fuel rb' rd id v (omega (arith, s)) (omega (arith, h, lt)))
      (ringbuffer_alloc rb rd) (ringbuffer_alloc-Allocates rb rd valid)

-- Making room in a valid buffer that is large enough ends, with more fuel than the buffer has
-- bytes: with a new block, after all blocks of some other connections were freed, or after those of
-- the connection that asked were freed too. Blocks of the connections that were not closed stay as
-- they are, and no block of a closed one is held.
pub make_room-MakesRoom :
    (fuel : ℕ) (rb : Ringbuffer) (rd id : ℕ)
    → IsValid rb
    → taken rd ≤ rb.size
    → rb.size < fuel
    → MakesRoom rb rd id (make_room fuel rb rd id)
make_room-MakesRoom fuel rb rd id valid fits h =
    make_room-bounded fuel rb rd id valid fits
      (omega (arith, count_le rb.size rb.blocks rb.size 0, h))
