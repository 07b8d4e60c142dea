-- ===== src/Ringbuffer/Links/Copy.antt =====
-- `ringbuffer_copy` in dn/gate/ringbuffer.c: a part of a message in one piece.
use dn_server.Common.{
  ℕ, zero, suc, ◌+◌, ◌-◌, ◌≤◌, ◌<◌, ◌≡◌, ◌≢◌, refl, sym, ap, subst, ◌∙◌, ◌⊎◌, inl, inr, true, List,
  [], ◌∷◌, some, ltb, ◌==◌, length, take, drop, tabulate, Bool-cases, eq→==, arith, Option, In,
}
use dn_server.Ringbuffer.{Ringbuffer, header_size, set_block}
use dn_server.Ringbuffer.Layout.{set_block_self, set_block_other}
use dn_server.Ringbuffer.Links.{room, room_left, copy_parts, copy_loop, ringbuffer_copy}
use dn_server.Ringbuffer.Links.Contents.{
  Linked, start, contents, length-payload, length-contents, drop-contents,
}
use dn_server.Ringbuffer.Links.Move.{AllApart}
use dn_server.Ringbuffer.Links.Parts.{Copies, stream-drop, copy_parts-Copies}

copy_loop-here :
    (fuel : ℕ) (rb : Ringbuffer) (o : ℕ) (ps : List ℕ) (skip size ptr : ℕ)
    → Linked rb.blocks o ps
    → length ps < suc fuel
    → ltb skip (room_left (rb.blocks o)) ≡ true
    → skip + size ≤ length (contents rb o ps)
    → AllApart rb ptr size ps
    → Copies rb
        (o ∷ ps)
        (drop skip (contents rb o ps))
        size
        ptr
        (copy_loop (suc fuel) rb o (room_left (rb.blocks o)) skip size ptr)
unfolding copy_loop
copy_loop-here fuel rb o ps skip size ptr linked h here fits apart =
    let n = length-contents rb o ps in
    let l = room_left (rb.blocks o) - skip in
    let parts =
      copy_parts-Copies (suc fuel) rb o ps l (start rb o + skip) size ptr linked h
        (ground (arith, n)) apart in
    rw here (
      subst
        (λ xs.
          Copies rb (o ∷ ps) xs size ptr
            (copy_parts (suc fuel) rb o l (start rb o + skip) size ptr))
        (stream-drop rb o ps skip (ground arith)) parts)

Copies-later :
    (rb : Ringbuffer) (o : ℕ) (read xs : List ℕ) (size ptr : ℕ) (r : Option (Ringbuffer × ℕ))
    → Copies rb read xs size ptr r
    → Copies rb (o ∷ read) xs size ptr r
Copies-later rb o read xs size ptr r (rb', last, e, one, a, b, c, d, f) =
    (rb', last, e, inr one, a, b, c, d, f)

copy_loop-Copies :
    (fuel : ℕ) (rb : Ringbuffer) (o : ℕ) (ps : List ℕ) (skip size ptr : ℕ)
    → Linked rb.blocks o ps
    → length ps < fuel
    → skip < length (contents rb o ps)
    → skip + size ≤ length (contents rb o ps)
    → AllApart rb ptr size ps
    → Copies rb
        (o ∷ ps)
        (drop skip (contents rb o ps))
        size
        ptr
        (copy_loop fuel rb o (room_left (rb.blocks o)) skip size ptr)
unfolding copy_loop
copy_loop-Copies zero rb o ps skip size ptr linked h lt fits apart = absurd (omega arith)
copy_loop-Copies (suc fuel) rb o [] skip size ptr next h lt fits apart =
    copy_loop-here fuel rb o [] skip size ptr next h (ground (arith, length-payload rb o)) fits
      apart
copy_loop-Copies (suc fuel) rb o (p ∷ ps) skip size ptr (next, at_start, linked) h lt fits apart =
    elim (Bool-cases (ltb skip (room_left (rb.blocks o)))) [
      | inl here ↦
          copy_loop-here fuel rb o (p ∷ ps) skip size ptr (next, at_start, linked) h here fits apart
      | inr there ↦
          let l = room_left (rb.blocks o) in
          let n = length-contents rb o (p ∷ ps) in
          let (_, rest) = apart in
          let r : room_left (rb.blocks p) ≡ room (rb.blocks p) = omega (arith, at_start) in
          let z : ((rb.blocks p).offset == 0) ≡ true = eq→== (rb.blocks p).offset 0 at_start in
          let ih =
            copy_loop-Copies fuel rb p ps (skip - l) size ptr linked (omega arith)
              (ground (arith, n)) (ground (arith, n)) rest in
          let ih' =
            Copies-later rb o (p ∷ ps) _ size ptr
              (copy_loop fuel rb p (room_left (rb.blocks p)) (skip - l) size ptr) ih in
          let d = drop-contents rb o (p ∷ ps) skip (ground arith) in
          rw (there, next, z)
            (subst
              (λ k.
                Copies rb (o ∷ p ∷ ps) (drop skip (contents rb o (p ∷ ps))) size ptr
                  (copy_loop fuel rb p k (skip - l) size ptr))
              r
              (subst
                (λ xs.
                  Copies rb (o ∷ p ∷ ps) xs size ptr
                    (copy_loop fuel rb p (room_left (rb.blocks p)) (skip - l) size ptr))
                (sym d) ih'))
    ]

-- What a copy to a block leaves: the bytes of the message in the block, in its header the
-- connection of a block of the message, and all else as it was.
abbrev pub CopiesTo : Ringbuffer → ℕ → List ℕ → ℕ → ℕ → Option (Ringbuffer × ℕ) → Type 0
CopiesTo rb from ps skip to r =
    (rb' : Ringbuffer) × (last : ℕ) × (r ≡ some (rb', to + header_size))
    × (tabulate (room (rb.blocks to)) (λ i. rb'.bytes (to + header_size + i))
        ≡ take (room (rb.blocks to)) (drop skip (contents rb from ps)))
    × ((i : ℕ)
        → (i < to + header_size) ⊎ (to + header_size + room (rb.blocks to) ≤ i)
        → rb'.bytes i ≡ rb.bytes i)
    × In last (from ∷ ps)
    × (rb'.blocks to ≡ record (rb.blocks to) { id = (rb.blocks last).id })
    × ((i : ℕ) → i ≢ to → rb'.blocks i ≡ rb.blocks i)
    × (rb'.size ≡ rb.size)
    × (rb'.head ≡ rb.head)

-- A copy to a block of as many bytes as are asked for, from behind a part of a message that is
-- skipped, where the message has fewer blocks than the buffer has bytes, has all the bytes and does
-- not reach into the target: the block holds these bytes, its id becomes that of a block of the
-- message, and nothing else changes, in its header too.
pub ringbuffer_copy-Copies :
    (rb : Ringbuffer) (from : ℕ) (ps : List ℕ) (skip to : ℕ)
    → Linked rb.blocks from ps
    → length ps < rb.size
    → skip < length (contents rb from ps)
    → skip + room (rb.blocks to) ≤ length (contents rb from ps)
    → AllApart rb (to + header_size) (room (rb.blocks to)) ps
    → CopiesTo rb from ps skip to (ringbuffer_copy rb from skip to)
unfolding ringbuffer_copy
ringbuffer_copy-Copies rb from ps skip to linked h lt fits apart =
    let (rb₁, last, e, one, blocks, sizes, heads, copied, outside) =
      copy_loop-Copies rb.size rb from ps skip (room (rb.blocks to)) (to + header_size) linked h lt
        fits apart in
    let header = record (rb₁.blocks to) { id = (rb₁.blocks last).id } in
    (
      set_block rb₁ to header,
      last,
      rw e refl,
      copied,
      outside,
      one,
      set_block_self rb₁ to header ∙ ap (λ m. record (m to) { id = (m last).id }) blocks,
      λ i ne. set_block_other rb₁ to header i ne ∙ ap (λ m. m i) blocks,
      sizes,
      heads,
    )
