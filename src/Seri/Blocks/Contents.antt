-- ===== src/Seri/Blocks/Contents.antt =====
-- What the blocks of a `struct write_block` hold, and that `wb_push` appends to it.
use dn_server.Common.{
  ℕ, zero, suc, ◌+◌, ◌-◌, ◌*◌, ◌≤◌, ◌<◌, ◌≡◌, refl, sym, ap, ◌∙◌, inl, inr, List, [], ◌∷◌, ◌++◌,
  Option, some, leb, ◌==◌, length, length-append, length-replicate, take, drop, take-append-drop,
  length-take, length-drop, append_assoc, append-nil, Bool-cases, arith,
}
use dn_server.Seri.{Pushes, bytes, concat}
use dn_server.Seri.Read.Leaves.{concat-append}
use dn_server.Seri.Blocks.{
  Buffer, block_size, blk_alloc, WriteBlock, splice, next_block, copy, push_loop, wb_push,
  wb_pushes, wb_init,
}

abbrev pub AllFull : List Buffer → Type 0
AllFull [] = Unit
AllFull (b ∷ bs) = (length b ≡ block_size) × AllFull bs

pub AllFull-append :
    (bs : List Buffer) (b : Buffer) → AllFull bs → length b ≡ block_size → AllFull (bs ++ b ∷ [])
AllFull-append [] b h e = (e, tt)
AllFull-append (c ∷ bs) b (e', h) e = (e', AllFull-append bs b h e)

pub length-concat_full :
    (bs : List Buffer) → AllFull bs → length (concat bs) ≡ length bs * block_size
length-concat_full [] h = refl
length-concat_full (b ∷ bs) (e, h) =
    omega (arith, length-append b (concat bs), length-concat_full bs h, e)

-- The bytes pushed so far.
abbrev pub contents : WriteBlock → List ℕ
contents b = concat b.full ++ take b.ptr b.current

-- Every block has its size, and `ptr` and `len` count what was pushed.
abbrev pub IsValid : WriteBlock → Type 0
IsValid b =
    AllFull b.full
    × (length b.current ≡ block_size)
    × (b.ptr ≤ block_size)
    × (b.len ≡ length b.full * block_size + b.ptr)

length-splice : (cells : Buffer) (p : ℕ) (bs : List ℕ) → length (splice cells p bs) ≡ length cells
length-splice [] p bs = refl
length-splice (c ∷ cells) (suc p) bs = ap suc (length-splice cells p bs)
length-splice (c ∷ cells) zero [] = refl
length-splice (c ∷ cells) zero (b ∷ bs) = ap suc (length-splice cells zero bs)

take-splice :
    (cells : Buffer) (p : ℕ) (bs : List ℕ) (n : ℕ)
    → n ≡ p + length bs
    → n ≤ length cells
    → take n (splice cells p bs) ≡ take p cells ++ bs
take-splice cells zero [] zero e h = refl
take-splice cells zero [] (suc n) e h = absurd (omega (arith, e))
take-splice cells (suc p) bs zero e h = absurd (omega (arith, e))
take-splice cells zero (b ∷ bs) zero e h = absurd (omega (arith, e))
take-splice [] zero (b ∷ bs) (suc n) e h = absurd (omega arith)
take-splice [] (suc p) bs (suc n) e h = absurd (omega arith)
take-splice (c ∷ cells) (suc p) bs (suc n) e h =
    ap (λ zs. c ∷ zs) (take-splice cells p bs n (omega (arith, e)) (omega arith))
take-splice (c ∷ cells) zero (b ∷ bs) (suc n) e h =
    ap (λ zs. b ∷ zs) (take-splice cells zero bs n (omega (arith, e)) (omega arith))

abbrev Appended : WriteBlock → List ℕ → WriteBlock → Type 0
Appended b bs b' = IsValid b' × (contents b' ≡ contents b ++ bs)

copy-Appended :
    (b : WriteBlock) (bs : List ℕ)
    → IsValid b
    → b.ptr + length bs ≤ block_size
    → Appended b bs (copy b bs)
copy-Appended b bs (full, size, ptr, len) h = (
  (full, length-splice b.current b.ptr bs ∙ size, h, omega (arith, len)),
  ap (λ zs. concat b.full ++ zs)
        (take-splice b.current b.ptr bs (b.ptr + length bs) refl (omega (arith, size, h)))
      ∙ sym (append_assoc (concat b.full) (take b.ptr b.current) bs),
)

pub take-all : (n : ℕ) (xs : List ℕ) → length xs ≡ n → take n xs ≡ xs
take-all zero [] h = refl
take-all zero (x ∷ xs) h = absurd (omega (arith, h))
take-all (suc n) [] h = absurd (omega (arith, h))
take-all (suc n) (x ∷ xs) h = ap (λ zs. x ∷ zs) (take-all n xs (omega (arith, h)))

-- A new block changes nothing that was pushed.
next_block-Appended :
    (b : WriteBlock) → IsValid b → b.ptr ≡ block_size → Appended b [] (next_block b)
next_block-Appended b (full, size, ptr, len) e = (
  (
    AllFull-append b.full b.current full size,
    length-replicate {A = ℕ} block_size 0,
    omega arith,
    omega (arith, len, e, length-append b.full (b.current ∷ [])),
  ),
  ap (λ zs. zs ++ [])
      (concat-append b.full (b.current ∷ [])
        ∙ ap (λ zs. concat b.full ++ zs)
            (append-nil b.current ∙ sym (rw e (take-all block_size b.current size)))),
)

Appended-trans :
    (b b' b'' : WriteBlock) (xs ys zs : List ℕ)
    → xs ++ ys ≡ zs
    → Appended b xs b'
    → Appended b' ys b''
    → Appended b zs b''
Appended-trans b b' b'' xs ys zs e (_, h) (valid, k) = (
  valid,
  k ∙ ap (λ ws. ws ++ ys) h ∙ append_assoc (contents b) xs ys ∙ ap (λ ws. contents b ++ ws) e,
)

abbrev Pushed : WriteBlock → List ℕ → Option WriteBlock → Type 0
Pushed b bs r = (b' : WriteBlock) × (r ≡ some b') × Appended b bs b'

-- A round that fills the block: the rest goes to the next one.
push_loop-Pushed :
    (fuel : ℕ) (b : WriteBlock) (bs : List ℕ)
    → IsValid b
    → b.ptr < block_size
    → length bs < fuel
    → Pushed b bs (push_loop fuel b bs)
unfolding push_loop
push_loop-Pushed zero b bs valid p h = absurd (omega arith)
push_loop-Pushed (suc fuel) b bs valid p h =
    elim (Bool-cases (leb (b.ptr + length bs) block_size)) [
      | inl fits ↦ (copy b bs, rw fits refl, copy-Appended b bs valid (ground arith))
      | inr long ↦
          let room = block_size - b.ptr in
          let n : room ≤ length bs = ground arith in
          let k = length-take room bs n in
          let c = copy b (take room bs) in
          let filled = copy-Appended b (take room bs) valid (omega arith) in
          let (valid', _) = filled in
          let next = next_block-Appended c valid' (omega arith) in
          let (valid'', _) = next in
          let (b', e, more) =
            push_loop-Pushed fuel (next_block c) (drop room bs) valid'' (omega arith)
              (omega (arith, length-drop room bs)) in
          (
            b',
            rw long e,
            Appended-trans b c b' (take room bs) (drop room bs) bs (take-append-drop room bs) filled
                (Appended-trans c (next_block c) b' [] (drop room bs) (drop room bs) refl next
                  more),
          )
    ]

wb_push-Pushed : (b : WriteBlock) (bs : List ℕ) → IsValid b → Pushed b bs (wb_push b bs)
unfolding wb_push
wb_push-Pushed b bs valid = elim (Bool-cases (b.ptr == block_size)) [
  | inl full ↦
      let next = next_block-Appended b valid (ground arith) in
      let (valid', _) = next in
      let (b', e, more) =
        push_loop-Pushed (length bs + 1) (next_block b) bs valid' (omega arith) (omega arith) in
      (b', rw full e, Appended-trans b (next_block b) b' [] bs bs refl next more)
  | inr room ↦
      let (_, _, p, _) = valid in
      let (b', e, more) =
        push_loop-Pushed (length bs + 1) b bs valid (ground arith) (omega arith) in
      (b', rw room e, more)
]

pub wb_pushes-Pushed :
    (b : WriteBlock) (ps : Pushes) → IsValid b → Pushed b (concat ps) (wb_pushes b ps)
unfolding wb_pushes
wb_pushes-Pushed b [] valid = (b, refl, (valid, sym (append-nil (contents b))))
wb_pushes-Pushed b (p ∷ ps) valid =
    let (b', e, first) = wb_push-Pushed b p valid in
    let (valid', _) = first in
    let (b'', e', more) = wb_pushes-Pushed b' ps valid' in
    (b'', rw e e', Appended-trans b b' b'' p (concat ps) (p ++ concat ps) refl first more)

pub wb_init-Pushed : (b : WriteBlock) × (wb_init ≡ some b) × (IsValid b × (contents b ≡ bytes 4 0))
unfolding wb_init
wb_init-Pushed =
    let empty : WriteBlock = record { full = []; current = blk_alloc; ptr = 0; len = 0 } in
    wb_push-Pushed empty (bytes 4 0) (tt, refl, omega arith, refl)
