-- ===== src/Ringbuffer/Links/Move.antt =====
-- Moves of bytes in the buffer of dn/gate/ringbuffer.c that leave a message as it is.
use dn_server.Common.{
  ℕ, ◌+◌, ◌≤◌, ◌<◌, ◌≡◌, refl, sym, ap, subst, ◌⊎◌, inl, inr, true, false, List, [], ◌∷◌, ltb, leb,
  ◌&&◌, tabulate-ext, arith,
}
use dn_server.Ringbuffer.{Ringbuffer, header_size}
use dn_server.Ringbuffer.Links.{room_left, move}
use dn_server.Ringbuffer.Links.Contents.{start, payload, contents}

-- The bytes of a block lie outside of a target.
abbrev pub Apart : Ringbuffer → ℕ → ℕ → ℕ → Type 0
Apart rb ptr size o = (start rb o + room_left (rb.blocks o) ≤ ptr) ⊎ (ptr + size ≤ start rb o)

abbrev pub AllApart : Ringbuffer → ℕ → ℕ → List ℕ → Type 0
AllApart rb ptr size [] = Unit
AllApart rb ptr size (p ∷ ps) = Apart rb ptr size p × AllApart rb ptr size ps

pub AllApart-part :
    (rb rb' : Ringbuffer) (ptr size ptr' size' : ℕ) (ps : List ℕ)
    → rb'.blocks ≡ rb.blocks
    → ptr ≤ ptr'
    → ptr' + size' ≤ ptr + size
    → AllApart rb ptr size ps
    → AllApart rb' ptr' size' ps
AllApart-part rb rb' ptr size ptr' size' [] same l h apart = tt
AllApart-part rb rb' ptr size ptr' size' (p ∷ ps) same l h (inl a, apart) =
    let e : rb'.blocks p ≡ rb.blocks p = ap (λ m. m p) same in
    (
      subst
          (λ b.
            (p + header_size + b.offset + room_left b ≤ ptr')
            ⊎ (ptr' + size' ≤ p + header_size + b.offset))
          (sym e) (inl (omega arith)),
      AllApart-part rb rb' ptr size ptr' size' ps same l h apart,
    )
AllApart-part rb rb' ptr size ptr' size' (p ∷ ps) same l h (inr a, apart) =
    let e : rb'.blocks p ≡ rb.blocks p = ap (λ m. m p) same in
    (
      subst
          (λ b.
            (p + header_size + b.offset + room_left b ≤ ptr')
            ⊎ (ptr' + size' ≤ p + header_size + b.offset))
          (sym e) (inr (omega arith)),
      AllApart-part rb rb' ptr size ptr' size' ps same l h apart,
    )

pub move-outside :
    (rb : Ringbuffer) (ptr src n i : ℕ)
    → (i < ptr) ⊎ (ptr + n ≤ i)
    → (move rb ptr src n).bytes i ≡ rb.bytes i
move-outside rb ptr src n i (inl h) =
    let e : (leb ptr i && ltb i (ptr + n)) ≡ false = ground arith in rw e refl
move-outside rb ptr src n i (inr h) =
    let e : (leb ptr i && ltb i (ptr + n)) ≡ false = ground arith in rw e refl

pub move-inside :
    (rb : Ringbuffer) (ptr src n i : ℕ)
    → i < n
    → (move rb ptr src n).bytes (ptr + i) ≡ rb.bytes (src + i)
move-inside rb ptr src n i h =
    let e : (leb ptr (ptr + i) && ltb (ptr + i) (ptr + n)) ≡ true = ground arith in
    rw e (ap rb.bytes (omega arith))

payload-move :
    (rb : Ringbuffer) (ptr src n p : ℕ)
    → Apart rb ptr n p
    → payload (move rb ptr src n) p ≡ payload rb p
payload-move rb ptr src n p apart =
    tabulate-ext (room_left (rb.blocks p)) (λ i. (move rb ptr src n).bytes (start rb p + i))
      (λ i. rb.bytes (start rb p + i))
      (λ i l.
        move-outside rb ptr src n (start rb p + i)
          (elim apart [ inl h ↦ inl (omega arith) | inr h ↦ inr (omega arith) ]))

-- A message whose bytes lie outside of a target is the same after a move to it.
pub contents-move :
    (rb : Ringbuffer) (ptr src n p : ℕ) (ps : List ℕ)
    → AllApart rb ptr n (p ∷ ps)
    → contents (move rb ptr src n) p ps ≡ contents rb p ps
contents-move rb ptr src n p [] (apart, _) = payload-move rb ptr src n p apart
contents-move rb ptr src n p (q ∷ ps) (apart, rest) =
    cc (payload-move rb ptr src n p apart, contents-move rb ptr src n q ps rest)
