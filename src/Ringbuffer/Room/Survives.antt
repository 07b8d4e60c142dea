-- ===== src/Ringbuffer/Room/Survives.antt =====
-- What is left of the held blocks when dn/gate/mread.c makes room.
use dn_server.Common.{
  ℕ, ◌≡◌, ◌≢◌, refl, sym, ap, subst, ◌∙◌, ◌⊎◌, inl, inr, true, List, ◌∷◌, Option, none, some, arith,
  In,
}
use dn_server.Ringbuffer.{Ringbuffer, is_held}
use dn_server.Ringbuffer.Layout.{Chain, Any, IsBlock, IsValid, IsHeldAt, chain_split, chain_first}
use dn_server.Ringbuffer.Carve.{new_block}
use dn_server.Ringbuffer.Collect.{Collected}
use dn_server.Ringbuffer.LastId.{Oldest}
use dn_server.Ringbuffer.Oldest.{Collected-IsBlock, Collected-IsHeldAt, Collected-Freed}
use dn_server.Ringbuffer.Room.{Room, found, own, broken, closing}

-- A block that was held is held as before, or by a connection that was closed; no other is held,
-- and none by a connection that was closed.
abbrev pub Survives : Ringbuffer → Ringbuffer → List ℕ → Type 0
Survives rb rb' ids =
    ((p : ℕ)
      → IsHeldAt rb p
      → ((id : ℕ) × ((rb.blocks p).id ≡ some id) × In id ids)
        ⊎ (IsHeldAt rb' p × (rb'.blocks p ≡ rb.blocks p)))
    × ((p : ℕ) → IsHeldAt rb' p → IsHeldAt rb p)
    × ((p id : ℕ) → IsHeldAt rb' p → (rb.blocks p).id ≡ some id → In id ids → ⊥)

-- What making room for a connection comes to.
abbrev pub MakesRoom : Ringbuffer → ℕ → ℕ → Room → Type 0
MakesRoom rb rd id (found rb' blk ids) =
    IsValid rb'
    × IsBlock rb' blk
    × (rb'.blocks blk ≡ new_block rd)
    × (In id ids → ⊥)
    × Survives rb rb' ids
MakesRoom rb rd id (own rb' ids) = IsValid rb' × In id ids × Survives rb rb' ids
MakesRoom rb rd id broken = ⊥

-- Only the headers and the size decide what is held.
pub IsHeldAt-same :
    (rb rb' : Ringbuffer) (p : ℕ)
    → rb'.size ≡ rb.size
    → rb'.blocks ≡ rb.blocks
    → IsHeldAt rb p
    → IsHeldAt rb' p
IsHeldAt-same rb rb' p size same ((start, rest, lt), held) = (
  (
    subst (λ m. Chain Any m p 0) (sym same) start,
    subst (λ n. Chain Any rb'.blocks n p) (sym size)
        (subst (λ m. Chain Any m rb.size p) (sym same) rest),
    omega (arith, size),
  ),
  subst (λ m. is_held (m p) ≡ true) (sym same) held,
)

pub Survives-step :
    (c : ℕ) (rb rb₁ rb' : Ringbuffer) (ids : List ℕ)
    → Collected (some c) rb 0 rb₁
    → Survives rb₁ rb' ids
    → Survives rb rb' (c ∷ ids)
Survives-step c rb rb₁ rb' ids collected (kept, only, gone) = (
  λ p h.
      (let (b, held) = h in
        elim (Collected-Freed (some c) rb rb₁ p collected h) [
          | inl (e, _) ↦ inl (c, e, inl refl)
          | inr (_, same) ↦
              elim (kept p (
                Collected-IsBlock (some c) rb rb₁ 0 p collected b,
                subst (λ k. is_held k ≡ true) (sym same) held,
              )) [
                | inl (id, e, closed) ↦ inl (id, ap (λ k. k.id) (sym same) ∙ e, inr closed)
                | inr (held', same') ↦ inr (held', same' ∙ same)
              ]
        ]),
  λ p h. Collected-IsHeldAt (some c) rb rb₁ p collected (only p h),
  λ p id h e closed.
      (let (b, held) = only p h in
        elim (Collected-Freed (some c) rb rb₁ p collected
          (Collected-IsHeldAt (some c) rb rb₁ p collected (b, held))) [
            | inl (_, free) ↦ absurd (ground arith)
            | inr (other, same) ↦ elim closed [
              | inl mine ↦ absurd (other (e ∙ ap (λ k. some k) mine))
              | inr later ↦ gone p id h (ap (λ k. k.id) same ∙ e) later
            ]
          ]),
)

-- The rounds after a collection, seen from before it.
pub closing-MakesRoom :
    (rb rb₁ : Ringbuffer) (rd id c : ℕ) (r : Room)
    → id ≢ c
    → Collected (some c) rb 0 rb₁
    → MakesRoom rb₁ rd id r
    → MakesRoom rb rd id (closing c r)
closing-MakesRoom rb rb₁ rd id c (found rb' blk ids) ne collected (valid, at, new, safe, survives) =
    (
      valid,
      at,
      new,
      (λ m. elim m [ inl e ↦ ne e | inr k ↦ safe k ]),
      Survives-step c rb rb₁ rb' ids collected survives,
    )
closing-MakesRoom rb rb₁ rd id c (own rb' ids) ne collected (valid, one, survives) =
    (valid, inr one, Survives-step c rb rb₁ rb' ids collected survives)
closing-MakesRoom rb rb₁ rd id c broken ne collected h = absurd h

Survives-same :
    (rb rb₁ rb' : Ringbuffer) (ids : List ℕ)
    → rb₁.size ≡ rb.size
    → rb₁.blocks ≡ rb.blocks
    → Survives rb₁ rb' ids
    → Survives rb rb' ids
Survives-same rb rb₁ rb' ids size same (kept, only, gone) = (
  λ p h. elim (kept p (IsHeldAt-same rb rb₁ p size same h)) [
    | inl (id, e, closed) ↦ inl (id, ap (λ m. (m p).id) (sym same) ∙ e, closed)
    | inr (held, e) ↦ inr (held, e ∙ ap (λ m. m p) same)
  ],
  λ p h. IsHeldAt-same rb₁ rb p (sym size) (sym same) (only p h),
  λ p id h e closed. gone p id h (ap (λ m. (m p).id) same ∙ e) closed,
)

pub MakesRoom-same :
    (rb rb₁ : Ringbuffer) (rd id : ℕ) (r : Room)
    → rb₁.size ≡ rb.size
    → rb₁.blocks ≡ rb.blocks
    → MakesRoom rb₁ rd id r
    → MakesRoom rb rd id r
MakesRoom-same rb rb₁ rd id (found rb' blk ids) size same (valid, at, new, safe, survives) =
    (valid, at, new, safe, Survives-same rb rb₁ rb' ids size same survives)
MakesRoom-same rb rb₁ rd id (own rb' ids) size same (valid, one, survives) =
    (valid, one, Survives-same rb rb₁ rb' ids size same survives)
MakesRoom-same rb rb₁ rd id broken size same h = absurd h

-- A buffer in which a block is held has a first one, of which a connection is collected.
pub Oldest-some :
    (rb : Ringbuffer) (p : ℕ)
    → IsHeldAt rb p
    → (r : Option ℕ) → Oldest rb r
    → (c : ℕ) × (q : ℕ) × (r ≡ some c) × IsHeldAt rb q × ((rb.blocks q).id ≡ some c)
Oldest-some rb p ((start, rest, lt), held) none free =
    let f = chain_first lt (chain_split (omega (arith, lt)) start free) in absurd (ground arith)
Oldest-some rb p h (some c) (q, _, held, e) = (c, q, refl, held, e)
