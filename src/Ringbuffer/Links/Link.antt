-- ===== src/Ringbuffer/Links/Link.antt =====
-- `ringbuffer_link` and `ringbuffer_free` in dn/gate/ringbuffer.c: a message grows by a block, and
-- all its blocks are freed.
use dn_server.Common.{
  ℕ, zero, suc, ◌+◌, ◌≤◌, ◌<◌, ◌≡◌, ◌≢◌, refl, sym, ap, ◌∙◌, true, List, [], ◌∷◌, ◌++◌, Option,
  none, some, leb, ◌==◌, assert, length, length-append, eq→==, ◌>>=◌, arith,
}
use dn_server.Ringbuffer.{Block, Ringbuffer, header_size, set_block}
use dn_server.Ringbuffer.Layout.{set_block_self, set_block_other}
use dn_server.Ringbuffer.Links.{ringbuffer_link, block_id, unhold, free_loop, ringbuffer_free}
use dn_server.Ringbuffer.Links.Contents.{Linked, payload, contents}
use dn_server.Ringbuffer.Links.Behind.{NotIn, Distinct, AllFree, Linked-set_block}
use dn_server.Ringbuffer.Links.Grow.{
  last_of, AllHeld, last_block-last_of, linked_to, linked_to-Links, last_of-NotIn, Linked-link,
  contents-link, last_of-AllHeld, AllHeld-link, Distinct-append,
}

-- All blocks of a message are free, and all others as they were.
abbrev pub Frees : Ringbuffer → List ℕ → Option Ringbuffer → Type 0
Frees rb ps r =
    (rb' : Ringbuffer) × (r ≡ some rb')
    × AllFree rb' ps
    × ((i : ℕ) → NotIn i ps → rb'.blocks i ≡ rb.blocks i)

AllHeld-set_block :
    (rb : Ringbuffer) (o id : ℕ) (b : Block) (ps : List ℕ)
    → NotIn o ps
    → AllHeld rb.blocks id ps
    → AllHeld (set_block rb o b).blocks id ps
AllHeld-set_block rb o id b [] out held = tt
AllHeld-set_block rb o id b (p ∷ ps) (ne, out) (long, e, held) =
    let same = set_block_other rb o b p (λ q. ne (sym q)) in
    (
      omega (arith, ap (λ c. c.length) same),
      ap (λ c. c.id) same ∙ e,
      AllHeld-set_block rb o id b ps out held,
    )

block_id-held :
    (rb : Ringbuffer) (p id : ℕ)
    → header_size ≤ (rb.blocks p).length
    → (rb.blocks p).id ≡ some id
    → block_id rb p ≡ some id
unfolding block_id
block_id-held rb p id long e =
    let fits : leb header_size (rb.blocks p).length ≡ true = ground arith in rw fits e

-- The loop by the link of its block.
free_loop-next :
    (fuel : ℕ) (rb : Ringbuffer) (id o : ℕ) {next : Option ℕ}
    → (rb.blocks o).next ≡ next
    → free_loop (suc fuel) rb id o ≡ elim next [
      | none ↦ some (unhold rb o)
      | some p ↦
          block_id (unhold rb o) p >>= λ id'. assert (id' == id) (free_loop fuel (unhold rb o) id p)
    ]
unfolding free_loop
free_loop-next fuel rb id o e =
    ap
      (λ n. elim n as (λ n. Option Ringbuffer) [
        | none ↦ some (unhold rb o)
        | some p ↦ block_id (unhold rb o) p >>= λ id'.
            assert (id' == id) (free_loop fuel (unhold rb o) id p)
      ])
      e

free_loop-Frees :
    (fuel : ℕ) (rb : Ringbuffer) (id o : ℕ) (ps : List ℕ)
    → Linked rb.blocks o ps
    → Distinct (o ∷ ps)
    → AllHeld rb.blocks id ps
    → length ps < fuel
    → Frees rb (o ∷ ps) (free_loop fuel rb id o)
free_loop-Frees zero rb id o ps linked d held h = absurd (omega arith)
free_loop-Frees (suc fuel) rb id o [] next d held h = (
  unhold rb o,
  free_loop-next fuel rb id o next,
  (ap (λ b. b.id) (set_block_self rb o _), tt),
  λ i out. (let (ne, _) = out in set_block_other rb o _ i ne),
)
free_loop-Frees (suc fuel) rb id o (p ∷ ps) (next, _, linked) (alone, d) held h =
    let b : Block = record (rb.blocks o) { id = none } in
    let rb₁ = unhold rb o in
    let held₁ = AllHeld-set_block rb o id b (p ∷ ps) alone held in
    let (long, e, rest) = held₁ in
    let (rb', run, free, others) =
      free_loop-Frees fuel rb₁ id p ps (Linked-set_block rb o b p ps alone linked) d rest
        (omega arith) in
    (
      rb',
      free_loop-next fuel rb id o next
          ∙ rw (block_id-held rb₁ p id long e, ◌>>=◌, eq→== id id refl) run,
      (ap (λ c. c.id) (others o alone ∙ set_block_self rb o b), free),
      λ i out. (let (ne, out') = out in others i out' ∙ set_block_other rb o b i ne),
    )

ringbuffer_free-Frees :
    (rb : Ringbuffer) (id o : ℕ) (ps : List ℕ)
    → Linked rb.blocks o ps
    → Distinct (o ∷ ps)
    → AllHeld rb.blocks id (o ∷ ps)
    → length ps < rb.size
    → Frees rb (o ∷ ps) (ringbuffer_free rb (some o))
unfolding ringbuffer_free
ringbuffer_free-Frees rb id o ps linked d (long, e, held) h =
    rw (block_id-held rb o id long e) (free_loop-Frees rb.size rb id o ps linked d held h)

-- What linking a block to a message does, and freeing the message then.
abbrev pub LinksFrees : Ringbuffer → ℕ → ℕ → ℕ → List ℕ → Type 0
LinksFrees rb id head next ps =
    (rb' : Ringbuffer) × (ringbuffer_link rb head next ≡ some rb')
    × (contents rb' head (ps ++ next ∷ []) ≡ contents rb head ps ++ payload rb next)
    × ((rb'.blocks next).id ≡ some id)
    × ((i : ℕ) → i ≢ last_of head ps → i ≢ next → rb'.blocks i ≡ rb.blocks i)
    × Frees rb' (head ∷ (ps ++ next ∷ [])) (ringbuffer_free rb' (some head))

-- A new block is linked to a message of distinct blocks of one connection, fewer than the buffer
-- has bytes: the message has the bytes of the block behind its own, the block belongs to the
-- connection, and no block changes but it and the last one. Freeing the message then frees all its
-- blocks, the new one too, and changes no other.
pub ringbuffer_link-free :
    (rb : Ringbuffer) (id head next : ℕ) (ps : List ℕ)
    → Linked rb.blocks head ps
    → Distinct (head ∷ ps)
    → AllHeld rb.blocks id (head ∷ ps)
    → NotIn next (head ∷ ps)
    → (rb.blocks next).next ≡ none
    → (rb.blocks next).offset ≡ 0
    → header_size ≤ (rb.blocks next).length
    → length ps + 1 < rb.size
    → LinksFrees rb id head next ps
unfolding ringbuffer_link
ringbuffer_link-free rb id head next ps linked d held out ends fresh long h =
    let last = last_of head ps in
    let rb' = linked_to rb last next in
    let links = linked_to-Links rb last next (λ e. last_of-NotIn next head ps out (sym e)) in
    let at_last = last_of-AllHeld rb.blocks id head ps held in
    (
      rb',
      rw (last_block-last_of rb.size rb head ps linked (omega arith)) refl,
      contents-link rb rb' last next head ps links refl,
      links.new_id ∙ at_last,
      links.others,
      ringbuffer_free-Frees rb' id head (ps ++ next ∷ [])
          (Linked-link rb.blocks rb'.blocks head next ps links linked d out ends fresh)
          (Distinct-append next (head ∷ ps) d out)
          (AllHeld-link rb.blocks rb'.blocks id last next (head ∷ ps) links out held long at_last)
          (omega (arith, length-append ps (next ∷ []))),
    )
