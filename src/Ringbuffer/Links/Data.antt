-- ===== src/Ringbuffer/Links/Data.antt =====
-- `ringbuffer_data` in dn/gate/ringbuffer.c: how much of a message is there, and where.
use dn_server.Common.{
  ℕ, zero, suc, ◌+◌, ◌-◌, ◌≤◌, ◌<◌, ◌≡◌, refl, sym, ap, subst, ◌∙◌, inl, inr, true, List, [], ◌∷◌,
  Option, none, some, ltb, leb, ◌==◌, if◌then◌else◌, length, take, drop, tabulate, Bool-cases,
  eq→==, arith,
}
use dn_server.Ringbuffer.{Ringbuffer}
use dn_server.Ringbuffer.Links.{room, room_left, count_data, data_loop, ringbuffer_data}
use dn_server.Ringbuffer.Links.Contents.{
  Linked, start, contents, later, length-payload, contents-part, length-contents, drop-contents,
}

abbrev pub lesser : ℕ → ℕ → ℕ
lesser a b = if leb a b then a else b

count_data-lesser :
    (fuel : ℕ) (rb : Ringbuffer) (o : ℕ) (ps : List ℕ) (ret size : ℕ)
    → Linked rb.blocks o ps
    → length ps < fuel
    → ret < size
    → count_data fuel rb o ret size ≡ some (lesser size (ret + length (later rb ps)))
unfolding count_data
count_data-lesser zero rb o ps ret size linked h lt = absurd (omega arith)
count_data-lesser (suc fuel) rb o [] ret size next h lt =
    let l : lesser size (ret + 0) ≡ ret = ground arith in rw (next, count_data, l) refl
count_data-lesser (suc fuel) rb o (p ∷ ps) ret size (next, at_start, linked) h lt =
    let r : room_left (rb.blocks p) ≡ room (rb.blocks p) = omega (arith, at_start) in
    let n : length (contents rb p ps) ≡ room (rb.blocks p) + length (later rb ps) =
      length-contents rb p ps ∙ omega (arith, r) in
    elim (Bool-cases (leb size (ret + room (rb.blocks p)))) [
      | inl all ↦
          let l : lesser size (ret + length (contents rb p ps)) ≡ size = ground (arith, n) in
          rw (next, count_data, all, l) refl
      | inr part ↦
          let ih =
            count_data-lesser fuel rb p ps (ret + room (rb.blocks p)) size linked (omega arith)
              (ground arith) in
          let e : ret + room (rb.blocks p) + length (later rb ps)
              ≡ ret + length (contents rb p ps) =
            omega (arith, n) in
          rw (next, count_data, part) (ih ∙ ap (λ k. some (lesser size k)) e)
    ]

-- What the pointer stands for: the bytes that were asked for, in one piece.
abbrev pub Points : Ringbuffer → ℕ → List ℕ → Option ℕ → Type 0
Points rb size wanted none = Unit
Points rb size wanted (some a) = tabulate size (λ i. rb.bytes (a + i)) ≡ wanted

abbrev Reads : ℕ → Ringbuffer → ℕ → List ℕ → ℕ → ℕ → Type 0
Reads fuel rb o ps size skip =
    (ptr : Option ℕ) × (data_loop fuel rb o (room_left (rb.blocks o)) size skip
      ≡ some (lesser size (length (contents rb o ps) - skip), ptr))
    × Points rb size (take size (drop skip (contents rb o ps))) ptr

-- The bytes begin in this block.
data_loop-here :
    (fuel : ℕ) (rb : Ringbuffer) (o : ℕ) (ps : List ℕ) (size skip : ℕ)
    → Linked rb.blocks o ps
    → length ps < suc fuel
    → ltb skip (room_left (rb.blocks o)) ≡ true
    → Reads (suc fuel) rb o ps size skip
unfolding data_loop
data_loop-here fuel rb o ps size skip linked h here =
    let l = room_left (rb.blocks o) in
    let n = length-contents rb o ps in
    elim (Bool-cases (leb size (l - skip))) [
      | inl whole ↦
          let e : lesser size (length (contents rb o ps) - skip) ≡ size = ground (arith, n) in
          (
            some (start rb o + skip),
            rw (here, whole, e) refl,
            contents-part rb o ps skip size (ground arith),
          )
      | inr part ↦
          let ih = count_data-lesser (suc fuel) rb o ps (l - skip) size linked h (ground arith) in
          let e : l - skip + length (later rb ps) ≡ length (contents rb o ps) - skip =
            ground (arith, n) in
          (none, rw (here, part, ih, e) refl, tt)
    ]

data_loop-Reads :
    (fuel : ℕ) (rb : Ringbuffer) (o : ℕ) (ps : List ℕ) (size skip : ℕ)
    → Linked rb.blocks o ps
    → length ps < fuel
    → skip ≤ length (contents rb o ps)
    → Reads fuel rb o ps size skip
unfolding data_loop
data_loop-Reads zero rb o ps size skip linked h s = absurd (omega arith)
data_loop-Reads (suc fuel) rb o [] size skip next h s =
    elim (Bool-cases (ltb skip (room_left (rb.blocks o)))) [
      | inl here ↦ data_loop-here fuel rb o [] size skip next h here
      | inr there ↦
          let n = length-payload rb o in
          let all : (room_left (rb.blocks o) == skip) ≡ true = ground (arith, n, s) in
          let e : lesser size (length (contents rb o []) - skip) ≡ 0 = ground (arith, n) in
          (none, rw (there, next, all, e) refl, tt)
    ]
data_loop-Reads (suc fuel) rb o (p ∷ ps) size skip (next, at_start, linked) h s =
    elim (Bool-cases (ltb skip (room_left (rb.blocks o)))) [
      | inl here ↦ data_loop-here fuel rb o (p ∷ ps) size skip (next, at_start, linked) h here
      | inr there ↦
          let l = room_left (rb.blocks o) in
          let n = length-contents rb o (p ∷ ps) in
          let r : room_left (rb.blocks p) ≡ room (rb.blocks p) = omega (arith, at_start) in
          let z : ((rb.blocks p).offset == 0) ≡ true = eq→== (rb.blocks p).offset 0 at_start in
          let (ptr, e, points) =
            data_loop-Reads fuel rb p ps size (skip - l) linked (omega arith)
              (ground (arith, n, s)) in
          let d = drop-contents rb o (p ∷ ps) skip (ground arith) in
          let m : length (contents rb p ps) - (skip - l) ≡ length (contents rb o (p ∷ ps)) - skip =
            ground (arith, n) in
          (
            ptr,
            rw (there, next, z)
                (ap (λ k. data_loop fuel rb p k size (skip - l)) (sym r)
                  ∙ e
                  ∙ ap (λ k. some (lesser size k, ptr)) m),
            subst (λ xs. Points rb size (take size xs) ptr) (sym d) points,
          )
    ]

-- A read of a message of fewer blocks than the buffer has bytes, behind a part of it that is
-- skipped: it gives as many bytes as are there, at most those asked for, and where it gives a
-- pointer, the bytes behind it are those of the message.
pub ringbuffer_data-Reads :
    (rb : Ringbuffer) (blk : ℕ) (ps : List ℕ) (size skip : ℕ)
    → Linked rb.blocks blk ps
    → length ps < rb.size
    → skip ≤ length (contents rb blk ps)
    → (ptr : Option ℕ) × (ringbuffer_data rb blk size skip
        ≡ some (lesser size (length (contents rb blk ps) - skip), ptr))
      × Points rb size (take size (drop skip (contents rb blk ps))) ptr
unfolding ringbuffer_data
ringbuffer_data-Reads rb blk ps size skip linked h s =
    data_loop-Reads rb.size rb blk ps size skip linked h s
