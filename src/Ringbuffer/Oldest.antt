-- ===== src/Ringbuffer/Oldest.antt =====
-- What `ringbuffer_collect` in dn/gate/ringbuffer.c does to the blocks that connections hold.
use dn_server.Common.{
  ℕ, ◌<◌, ◌≡◌, ◌≢◌, refl, sym, ap, subst, ◌⊎◌, inl, inr, true, false, Option, none, some, leb, ◌==◌,
  ◌&&◌, Bool-cases, ==→eq, arith,
}
use dn_server.Ringbuffer.{Block, Ringbuffer, header_size, is_held, is_id, collect_block}
use dn_server.Ringbuffer.Layout.{Chain, Any, IsBlock, IsHeldAt, chain_lengths}
use dn_server.Ringbuffer.Collect.{Collected}

is_id-cases : (i j : Option ℕ) → ((i ≡ j) × (is_id i j ≡ true)) ⊎ ((i ≢ j) × (is_id i j ≡ false))
is_id-cases none none = inl (refl, refl)
is_id-cases none (some j) = inr ((λ e. cc), refl)
is_id-cases (some i) none = inr ((λ e. cc), refl)
is_id-cases (some i) (some j) = elim (Bool-cases (i == j)) [
  | inl e ↦ inl (ap some (==→eq i j e), e)
  | inr e ↦ inr ((λ q. (let q' : i ≡ j = cc in absurd (ground arith))), e)
]

-- A block that is held is freed where its id is the given one, and stays as it is otherwise.
abbrev pub Freed : Option ℕ → Block → Block → Type 0
Freed id b b' = ((b.id ≡ id) × (is_held b' ≡ false)) ⊎ ((b.id ≢ id) × (b' ≡ b))

collect_block-Freed :
    (id : Option ℕ) (b : Block) → is_held b ≡ true → Freed id b (collect_block id b)
collect_block-Freed id b h =
    let l : leb header_size b.length ≡ true = ground arith in
    elim (is_id-cases b.id id) [
      | inl (e, t) ↦ inl (e, rw (l, t) (rw l refl))
      | inr (ne, f) ↦ inr (ne, rw (l, f) refl)
    ]

collect_block-held :
    (id : Option ℕ) (b : Block) → is_held (collect_block id b) ≡ true → is_held b ≡ true
collect_block-held id b h = elim (Bool-cases (leb header_size b.length && is_id b.id id)) [
  | inl e ↦ absurd (let no : (leb header_size b.length && false) ≡ true = rw e at h in ground arith)
  | inr e ↦ rw e at h
]

-- The blocks are where they were.
pub Collected-IsBlock :
    (id : Option ℕ) (rb rb' : Ringbuffer) (o p : ℕ)
    → Collected id rb o rb'
    → IsBlock rb p
    → IsBlock rb' p
Collected-IsBlock id rb rb' o p c (start, rest, lt) = (
  chain_lengths c.lengths start,
  subst (λ n. Chain Any rb'.blocks n p) (sym c.same_size) (chain_lengths c.lengths rest),
  omega (arith, c.same_size),
)

-- Back from the collected buffer.
Collected-IsBlock_back :
    (id : Option ℕ) (rb rb' : Ringbuffer) (o p : ℕ)
    → Collected id rb o rb'
    → IsBlock rb' p
    → IsBlock rb p
Collected-IsBlock_back id rb rb' o p c (start, rest, lt) =
    let l : (i : ℕ) → (rb.blocks i).length ≡ (rb'.blocks i).length = λ i. sym (c.lengths i) in
    (
      chain_lengths l start,
      subst (λ n. Chain Any rb.blocks n p) c.same_size (chain_lengths l rest),
      omega (arith, c.same_size),
    )

pub Collected-held :
    (id : Option ℕ) (rb rb' : Ringbuffer) (p : ℕ)
    → Collected id rb 0 rb'
    → Chain Any rb.blocks p 0
    → p < rb.size
    → is_held (rb'.blocks p) ≡ true
    → is_held (rb.blocks p) ≡ true
Collected-held id rb rb' p c start lt held =
    collect_block-held id (rb.blocks p)
      (subst (λ b. is_held b ≡ true) (c.collected p start lt) held)

pub Collected-IsHeldAt :
    (id : Option ℕ) (rb rb' : Ringbuffer) (p : ℕ)
    → Collected id rb 0 rb'
    → IsHeldAt rb' p
    → IsHeldAt rb p
Collected-IsHeldAt id rb rb' p c (block, held) =
    let (start, rest, lt) = Collected-IsBlock_back id rb rb' 0 p c block in
    ((start, rest, lt), Collected-held id rb rb' p c start lt held)

pub Collected-Freed :
    (id : Option ℕ) (rb rb' : Ringbuffer) (p : ℕ)
    → Collected id rb 0 rb'
    → IsHeldAt rb p
    → Freed id (rb.blocks p) (rb'.blocks p)
Collected-Freed id rb rb' p c ((start, rest, lt), held) =
    subst (Freed id (rb.blocks p)) (sym (c.collected p start lt))
      (collect_block-Freed id (rb.blocks p) held)
