-- ===== src/Ringbuffer/Links/Contents.antt =====
-- The bytes of a message of dn/gate/ringbuffer.c.
use dn_server.Common.{
  ℕ, ◌+◌, ◌-◌, ◌≤◌, ◌≡◌, refl, sym, ap, ◌∙◌, List, [], ◌∷◌, ◌++◌, none, some, length, take, drop,
  tabulate, length-append, append-nil, length-tabulate, take-tabulate, drop-tabulate, tabulate-ext,
  take-append_short, drop-append_short, drop-append_long, length-drop, arith,
}
use dn_server.Ringbuffer.{Block, Ringbuffer, header_size}
use dn_server.Ringbuffer.Links.{room_left}

-- A message begins in a block, perhaps behind some bytes, and goes on in the others.
abbrev pub Linked : (ℕ → Block) → ℕ → List ℕ → Type 0
Linked m o [] = (m o).next ≡ none
Linked m o (p ∷ ps) = ((m o).next ≡ some p) × ((m p).offset ≡ 0) × Linked m p ps

-- The first byte of a block that is left.
abbrev pub start : Ringbuffer → ℕ → ℕ
start rb o = o + header_size + (rb.blocks o).offset

abbrev pub payload : Ringbuffer → ℕ → List ℕ
payload rb o = tabulate (room_left (rb.blocks o)) (λ i. rb.bytes (start rb o + i))

abbrev pub contents : Ringbuffer → ℕ → List ℕ → List ℕ
contents rb o [] = payload rb o
contents rb o (p ∷ ps) = payload rb o ++ contents rb p ps

abbrev pub later : Ringbuffer → List ℕ → List ℕ
later rb [] = []
later rb (p ∷ ps) = contents rb p ps

pub length-payload : (rb : Ringbuffer) (o : ℕ) → length (payload rb o) ≡ room_left (rb.blocks o)
length-payload rb o = length-tabulate (room_left (rb.blocks o)) (λ i. rb.bytes (start rb o + i))

pub contents-split :
    (rb : Ringbuffer) (o : ℕ) (ps : List ℕ) → contents rb o ps ≡ payload rb o ++ later rb ps
contents-split rb o [] = sym (append-nil (payload rb o))
contents-split rb o (p ∷ ps) = refl

-- Bytes from the middle of a block.
payload-part :
    (rb : Ringbuffer) (o skip size : ℕ)
    → skip + size ≤ room_left (rb.blocks o)
    → tabulate size (λ i. rb.bytes (start rb o + skip + i)) ≡ take size (drop skip (payload rb o))
payload-part rb o skip size h =
    let f = λ (i : ℕ). rb.bytes (start rb o + i) in
    let n = room_left (rb.blocks o) in
    sym (
      ap (take size) (drop-tabulate skip n (n - skip) f (omega arith))
      ∙ take-tabulate size (n - skip) (λ i. f (skip + i)) (omega arith)
      ∙ tabulate-ext size (λ i. f (skip + i)) (λ i. rb.bytes (start rb o + skip + i))
          (λ i l. ap rb.bytes (omega arith)))

-- The wanted bytes lie in the first block.
pub contents-part :
    (rb : Ringbuffer) (o : ℕ) (ps : List ℕ) (skip size : ℕ)
    → skip + size ≤ room_left (rb.blocks o)
    → tabulate size (λ i. rb.bytes (start rb o + skip + i))
      ≡ take size (drop skip (contents rb o ps))
contents-part rb o ps skip size h =
    let n = length-payload rb o in
    payload-part rb o skip size h
    ∙ sym (
        ap (λ xs. take size (drop skip xs)) (contents-split rb o ps)
        ∙ ap (take size) (drop-append_short skip (payload rb o) (later rb ps) (omega (arith, n)))
        ∙ take-append_short size (drop skip (payload rb o)) (later rb ps)
            (omega (arith, n, length-drop skip (payload rb o))))

pub length-contents :
    (rb : Ringbuffer) (o : ℕ) (ps : List ℕ)
    → length (contents rb o ps) ≡ room_left (rb.blocks o) + length (later rb ps)
length-contents rb o ps =
    ap (λ xs. length xs) (contents-split rb o ps)
    ∙ omega (arith, length-append (payload rb o) (later rb ps), length-payload rb o)

-- The first block is skipped.
pub drop-contents :
    (rb : Ringbuffer) (o : ℕ) (ps : List ℕ) (skip : ℕ)
    → room_left (rb.blocks o) ≤ skip
    → drop skip (contents rb o ps) ≡ drop (skip - room_left (rb.blocks o)) (later rb ps)
drop-contents rb o ps skip h =
    ap (drop skip) (contents-split rb o ps)
    ∙ drop-append_long skip (skip - room_left (rb.blocks o)) (payload rb o) (later rb ps)
        (omega (arith, length-payload rb o))
