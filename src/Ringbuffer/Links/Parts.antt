-- ===== src/Ringbuffer/Links/Parts.antt =====
-- The inner loop of `ringbuffer_copy` in dn/gate/ringbuffer.c.
use dn_server.Common.{
  ℕ, zero, suc, ◌+◌, ◌-◌, ◌≤◌, ◌<◌, ◌≡◌, refl, sym, ap, subst, ◌∙◌, ◌⊎◌, inl, inr, true, false,
  List, [], ◌∷◌, ◌++◌, Option, some, ltb, ◌==◌, length, take, drop, tabulate, length-tabulate,
  tabulate-ext, tabulate-split, take-tabulate, drop-tabulate, take-append_short, take-append_long,
  drop-append_short, Bool-cases, eq→==, arith, In,
}
use dn_server.Ringbuffer.{Ringbuffer, header_size}
use dn_server.Ringbuffer.Links.{room, room_left, move, copy_parts}
use dn_server.Ringbuffer.Links.Contents.{
  Linked, start, payload, contents, later, length-payload, contents-split, length-contents,
}
use dn_server.Ringbuffer.Links.Move.{
  AllApart, AllApart-part, move-outside, move-inside, contents-move,
}

-- The first bytes of a stream are at the target, no other byte has changed, and the block that is
-- read last is one of the message.
abbrev pub Copies : Ringbuffer → List ℕ → List ℕ → ℕ → ℕ → Option (Ringbuffer × ℕ) → Type 0
Copies rb read stream size ptr r =
    (rb' : Ringbuffer) × (last : ℕ) × (r ≡ some (rb', last))
    × In last read
    × (rb'.blocks ≡ rb.blocks)
    × (rb'.size ≡ rb.size)
    × (rb'.head ≡ rb.head)
    × (tabulate size (λ i. rb'.bytes (ptr + i)) ≡ take size stream)
    × ((i : ℕ) → (i < ptr) ⊎ (ptr + size ≤ i) → rb'.bytes i ≡ rb.bytes i)

pub stream : Ringbuffer → ℕ → ℕ → List ℕ → List ℕ
stream rb src n ps = tabulate n (λ i. rb.bytes (src + i)) ++ later rb ps

stream-contents :
    (rb : Ringbuffer) (p : ℕ) (ps : List ℕ)
    → (rb.blocks p).offset ≡ 0
    → stream rb (p + header_size) (room (rb.blocks p)) ps ≡ contents rb p ps
unfolding stream
stream-contents rb p ps h =
    let a : p + header_size ≡ start rb p = omega (arith, h) in
    let b : room (rb.blocks p) ≡ room_left (rb.blocks p) = omega (arith, h) in
    ap (λ k. tabulate k (λ i. rb.bytes (p + header_size + i)) ++ later rb ps) b
    ∙ ap (λ k. tabulate (room_left (rb.blocks p)) (λ i. rb.bytes (k + i)) ++ later rb ps) a
    ∙ sym (contents-split rb p ps)

pub stream-drop :
    (rb : Ringbuffer) (o : ℕ) (ps : List ℕ) (skip : ℕ)
    → skip ≤ room_left (rb.blocks o)
    → stream rb (start rb o + skip) (room_left (rb.blocks o) - skip) ps
      ≡ drop skip (contents rb o ps)
unfolding stream
stream-drop rb o ps skip h =
    let n = room_left (rb.blocks o) in
    let f = λ (i : ℕ). rb.bytes (start rb o + i) in
    ap (λ xs. xs ++ later rb ps)
      (tabulate-ext (n - skip) (λ i. rb.bytes (start rb o + skip + i)) (λ i. f (skip + i))
          (λ i l. ap rb.bytes (omega arith))
        ∙ sym (drop-tabulate skip n (n - skip) f (omega arith)))
    ∙ sym (
        ap (drop skip) (contents-split rb o ps)
        ∙ drop-append_short skip (payload rb o) (later rb ps) (omega (arith, length-payload rb o)))

copy_parts-last :
    (fuel : ℕ) (rb : Ringbuffer) (o : ℕ) (ps : List ℕ) (n src size ptr : ℕ)
    → ltb n size ≡ false
    → Copies rb (o ∷ ps) (stream rb src n ps) size ptr (copy_parts (suc fuel) rb o n src size ptr)
unfolding copy_parts stream
copy_parts-last fuel rb o ps n src size ptr done =
    let f = λ (i : ℕ). rb.bytes (src + i) in
    (
      move rb ptr src size,
      o,
      rw done refl,
      inl refl,
      refl,
      refl,
      refl,
      tabulate-ext size (λ i. (move rb ptr src size).bytes (ptr + i)) f
            (λ i l. move-inside rb ptr src size i l)
          ∙ sym (
              take-append_short size (tabulate n f) (later rb ps)
                (ground (arith, length-tabulate n f))
              ∙ take-tabulate size n f (ground arith)),
      λ i h. move-outside rb ptr src size i h,
    )

-- A part of the copy, and the rest of it from the next block on.
Copies-step :
    (rb : Ringbuffer) (o p : ℕ) (ps : List ℕ) (n src size ptr : ℕ) (r : Option (Ringbuffer × ℕ))
    → n < size
    → AllApart rb ptr n (p ∷ ps)
    → Copies (move rb ptr src n) (p ∷ ps) (contents (move rb ptr src n) p ps) (size - n) (ptr + n) r
    → Copies rb (o ∷ p ∷ ps) (stream rb src n (p ∷ ps)) size ptr r
unfolding stream
Copies-step rb o p ps n src size ptr r lt apart
      (rb', last, e, one, blocks, sizes, heads, copied, outside) =
    let rb₁ = move rb ptr src n in
    let f = λ (i : ℕ). rb.bytes (src + i) in
    let first : tabulate n (λ i. rb'.bytes (ptr + i)) ≡ tabulate n f =
      tabulate-ext n (λ i. rb'.bytes (ptr + i)) f
        (λ i l. outside (ptr + i) (inl (omega arith)) ∙ move-inside rb ptr src n i l) in
    let rest : tabulate (size - n) (λ i. rb'.bytes (ptr + (n + i)))
        ≡ take (size - n) (contents rb p ps) =
      tabulate-ext (size - n) (λ i. rb'.bytes (ptr + (n + i))) (λ i. rb'.bytes (ptr + n + i))
        (λ i l. ap rb'.bytes (omega arith))
      ∙ copied
      ∙ ap (take (size - n)) (contents-move rb ptr src n p ps apart) in
    (
      rb',
      last,
      e,
      inr one,
      blocks,
      sizes,
      heads,
      tabulate-split size n (size - n) (λ i. rb'.bytes (ptr + i)) (omega arith)
          ∙ cc (first, rest)
          ∙ sym (
              take-append_long size (size - n) (tabulate n f) (contents rb p ps)
                (omega (arith, length-tabulate n f))),
      λ i h.
          (outside i (elim h [ inl a ↦ inl (omega arith) | inr b ↦ inr (omega arith) ])
            ∙ move-outside rb ptr src n i (elim h [ inl a ↦ inl a | inr b ↦ inr (omega arith) ])),
    )

pub copy_parts-Copies :
    (fuel : ℕ) (rb : Ringbuffer) (o : ℕ) (ps : List ℕ) (n src size ptr : ℕ)
    → Linked rb.blocks o ps
    → length ps < fuel
    → size ≤ n + length (later rb ps)
    → AllApart rb ptr size ps
    → Copies rb (o ∷ ps) (stream rb src n ps) size ptr (copy_parts fuel rb o n src size ptr)
unfolding copy_parts
copy_parts-Copies zero rb o ps n src size ptr linked h fits apart = absurd (omega arith)
copy_parts-Copies (suc fuel) rb o [] n src size ptr next h fits apart =
    copy_parts-last fuel rb o [] n src size ptr (ground arith)
copy_parts-Copies (suc fuel) rb o (p ∷ ps) n src size ptr (next, at_start, linked) h fits apart =
    elim (Bool-cases (ltb n size)) [
      | inr done ↦ copy_parts-last fuel rb o (p ∷ ps) n src size ptr done
      | inl more ↦
          let rb₁ = move rb ptr src n in
          let lt : n < size = ground arith in
          let here =
            AllApart-part rb rb ptr size ptr n (p ∷ ps) refl (omega arith) (omega arith) apart in
          let (_, rest) = apart in
          let z : ((rb.blocks p).offset == 0) ≡ true = eq→== (rb.blocks p).offset 0 at_start in
          let same = stream-contents rb₁ p ps at_start in
          let l : length (contents rb p ps) ≡ room (rb.blocks p) + length (later rb₁ ps) =
            ap (λ xs. length xs) (sym (contents-move rb ptr src n p ps here))
            ∙ length-contents rb₁ p ps
            ∙ omega (arith, at_start) in
          let ih =
            copy_parts-Copies fuel rb₁ p ps (room (rb.blocks p)) (p + header_size) (size - n)
              (ptr + n) linked (omega arith) (omega (arith, l))
              (AllApart-part rb rb₁ ptr size (ptr + n) (size - n) ps refl (omega arith)
                (omega arith) rest) in
          rw (more, next, z)
            (Copies-step rb o p ps n src size ptr _ lt here (
              subst
                (λ xs. Copies rb₁ (p ∷ ps) xs (size - n) (ptr + n) (
                  copy_parts fuel rb₁ p (room (rb.blocks p)) (p + header_size) (size - n)
                    (ptr + n)))
                same ih))
    ]
