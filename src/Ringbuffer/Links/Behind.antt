-- ===== src/Ringbuffer/Links/Behind.antt =====
-- A message of dn/gate/ringbuffer.c that begins further behind, and one of which another block changes.
use dn_server.Common.{
  ℕ, ◌+◌, ◌-◌, ◌≤◌, ◌<◌, ◌≡◌, ◌≢◌, refl, sym, ap, ◌∙◌, ◌⊎◌, List, [], ◌∷◌, ◌++◌, Option, none, some,
  length, drop, tabulate, tabulate-ext, drop-tabulate, drop-append_short, arith,
}
use dn_server.Ringbuffer.{Block, Ringbuffer, header_size, set_block}
use dn_server.Ringbuffer.Layout.{set_block_self, set_block_other}
use dn_server.Ringbuffer.Links.{room_left}
use dn_server.Ringbuffer.Links.Contents.{
  Linked, start, payload, contents, later, length-payload, contents-split,
}

abbrev pub NotIn : ℕ → List ℕ → Type 0
NotIn o [] = Unit
NotIn o (p ∷ ps) = (o ≢ p) × NotIn o ps

abbrev pub Distinct : List ℕ → Type 0
Distinct [] = Unit
Distinct (p ∷ ps) = NotIn p ps × Distinct ps

abbrev pub AllFree : Ringbuffer → List ℕ → Type 0
AllFree rb [] = Unit
AllFree rb (p ∷ ps) = ((rb.blocks p).id ≡ none) × AllFree rb ps

-- A change of another block.
module _ (rb : Ringbuffer) (o : ℕ) (b : Block) where
  payload-set_block : (p : ℕ) → o ≢ p → payload (set_block rb o b) p ≡ payload rb p
  payload-set_block p ne =
      ap (λ c. tabulate (room_left c) (λ i. rb.bytes (p + header_size + c.offset + i)))
        (set_block_other rb o b p (λ e. ne (sym e)))

  pub contents-set_block :
      (p : ℕ) (ps : List ℕ) → NotIn o (p ∷ ps) → contents (set_block rb o b) p ps ≡ contents rb p ps
  contents-set_block p [] (ne, _) = payload-set_block p ne
  contents-set_block p (q ∷ ps) (ne, rest) =
      cc (payload-set_block p ne, contents-set_block q ps rest)

  later-set_block : (ps : List ℕ) → NotIn o ps → later (set_block rb o b) ps ≡ later rb ps
  later-set_block [] h = refl
  later-set_block (p ∷ ps) h = contents-set_block p ps h

  pub Linked-set_block :
      (p : ℕ) (ps : List ℕ)
      → NotIn o (p ∷ ps)
      → Linked rb.blocks p ps
      → Linked (set_block rb o b).blocks p ps
  Linked-set_block p [] (ne, _) next =
      ap (λ c. c.next) (set_block_other rb o b p (λ e. ne (sym e))) ∙ next
  Linked-set_block p (q ∷ ps) (ne, (ne', rest)) (next, at_start, linked) = (
    ap (λ c. c.next) (set_block_other rb o b p (λ e. ne (sym e))) ∙ next,
    ap (λ c. c.offset) (set_block_other rb o b q (λ e. ne' (sym e))) ∙ at_start,
    Linked-set_block q ps (ne', rest) linked,
  )

-- The message goes on in one of its blocks, and those before it are free; or all of it was read.
abbrev pub Yields : Ringbuffer → ℕ → List ℕ → ℕ → Option (Ringbuffer × Option ℕ) → Type 0
Yields rb o ps skip r =
    (rb' : Ringbuffer) × (((skip < length (contents rb o ps))
        × ((done : List ℕ) × (o' : ℕ) × (ps' : List ℕ) × (r ≡ some (rb', some o'))
            × (o ∷ ps ≡ done ++ o' ∷ ps')
            × AllFree rb' done
            × Linked rb'.blocks o' ps'
            × (contents rb' o' ps' ≡ drop skip (contents rb o ps))))
      ⊎ ((length (contents rb o ps) ≤ skip) × (r ≡ some (rb', none)) × AllFree rb' (o ∷ ps)))
    × ((i : ℕ) → NotIn i (o ∷ ps) → rb'.blocks i ≡ rb.blocks i)

-- A change of the first block that keeps its link.
pub Linked-first :
    (rb : Ringbuffer) (o : ℕ) (b : Block) (ps : List ℕ)
    → b.next ≡ (rb.blocks o).next
    → NotIn o ps
    → Linked rb.blocks o ps
    → Linked (set_block rb o b).blocks o ps
Linked-first rb o b [] e fresh next = ap (λ c. c.next) (set_block_self rb o b) ∙ e ∙ next
Linked-first rb o b (p ∷ ps) e (ne, fresh) (next, at_start, linked) = (
  ap (λ c. c.next) (set_block_self rb o b) ∙ e ∙ next,
  ap (λ c. c.offset) (set_block_other rb o b p (λ q. ne (sym q))) ∙ at_start,
  Linked-set_block rb o b p ps (ne, fresh) linked,
)

-- A message that begins further behind.
pub contents-offset :
    (rb : Ringbuffer) (o : ℕ) (ps : List ℕ) (skip : ℕ)
    → NotIn o ps
    → skip ≤ room_left (rb.blocks o)
    → contents (set_block rb o (record (rb.blocks o) { offset = (rb.blocks o).offset + skip })) o ps
      ≡ drop skip (contents rb o ps)
contents-offset rb o ps skip fresh h =
    let b : Block = record (rb.blocks o) { offset = (rb.blocks o).offset + skip } in
    let rb' = set_block rb o b in
    let n = room_left (rb.blocks o) in
    let f = λ (i : ℕ). rb.bytes (start rb o + i) in
    let here : payload rb' o ≡ drop skip (payload rb o) =
      ap (λ c. tabulate (room_left c) (λ i. rb.bytes (o + header_size + c.offset + i)))
        (set_block_self rb o b)
      ∙ ap (λ k. tabulate k (λ i. rb.bytes (o + header_size + b.offset + i))) (omega arith)
      ∙ tabulate-ext (n - skip) (λ i. rb.bytes (o + header_size + b.offset + i)) (λ i. f (skip + i))
          (λ i l. ap rb.bytes (omega arith))
      ∙ sym (drop-tabulate skip n (n - skip) f (omega arith)) in
    contents-split rb' o ps
    ∙ cc (here, later-set_block rb o b ps fresh)
    ∙ sym (
        ap (drop skip) (contents-split rb o ps)
        ∙ drop-append_short skip (payload rb o) (later rb ps) (omega (arith, length-payload rb o)))
