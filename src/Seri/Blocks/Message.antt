-- ===== src/Seri/Blocks/Message.antt =====
-- The message of a chain: what `_seri` copies is what was pushed after `wb_init`.
use dn_server.Common.{
  ℕ, zero, suc, ◌+◌, ◌-◌, ◌^◌, ◌%◌, ◌≤◌, ◌<◌, ◌≡◌, refl, sym, ap, ◌∙◌, inl, inr, false, List, [],
  ◌∷◌, ◌++◌, some, ltb, leb, ◌==◌, length, length-append, take, drop, take-append,
  take-append_short, take-append_long, drop-append_short, take-append-drop, length-take,
  length-drop, append_assoc, append-nil, Bool-cases, arith,
}
use dn_server.Seri.{Value, Pushes, bytes, concat, pack_from}
use dn_server.Seri.Read.{from_bytes}
use dn_server.Seri.Read.Leaves.{concat-append}
use dn_server.Seri.Blocks.{
  Buffer, block_size, WriteBlock, splice, wb_close, write_first, copy_blocks, seri, luaseri_pack,
}
use dn_server.Seri.Blocks.Contents.{
  AllFull, AllFull-append, length-concat_full, contents, IsValid, take-all, wb_pushes-Pushed,
  wb_init-Pushed,
}

copy_blocks-take :
    (len : ℕ) (bs : List Buffer)
    → AllFull bs
    → len ≤ length (concat bs)
    → copy_blocks len bs ≡ some (take len (concat bs))
unfolding copy_blocks
copy_blocks-take zero [] h l = refl
copy_blocks-take (suc n) [] h l = absurd (omega arith)
copy_blocks-take zero (b ∷ bs) h l = refl
copy_blocks-take (suc n) (b ∷ bs) (e, h) l =
    let z : (suc n == 0) ≡ false = ground arith in
    elim (Bool-cases (leb block_size (suc n))) [
      | inl long ↦
          let m = suc n - block_size in
          let q : suc n ≡ length b + m = ground arith in
          let rest = copy_blocks-take m bs h (omega (arith, length-append b (concat bs))) in
          rw (z, long, rest, take-append_long (suc n) m b (concat bs) q) refl
      | inr short ↦ rw (z, short, take-append_short (suc n) b (concat bs) (ground arith)) refl
    ]

splice-drop :
    (bs : List ℕ) (cells : Buffer)
    → length bs ≤ length cells
    → splice cells 0 bs ≡ bs ++ drop (length bs) cells
splice-drop [] [] h = refl
splice-drop [] (c ∷ cells) h = refl
splice-drop (b ∷ bs) [] h = absurd (omega arith)
splice-drop (b ∷ bs) (c ∷ cells) h = ap (λ zs. b ∷ zs) (splice-drop bs cells (omega arith))

-- `_seri` of a chain whose first cells hold its length.
seri-header :
    (len : ℕ) (h : Buffer) (r : List Buffer)
    → AllFull (h ∷ r)
    → 4 ≤ len
    → len < 2 ^ 31
    → len ≤ length (concat (h ∷ r))
    → seri (splice h 0 (bytes 4 len) ∷ r) ≡ some (take (len - 4) (drop 4 (concat (h ∷ r))))
unfolding seri
seri-header len h r (size, full) low high fits =
    let head : splice h 0 (bytes 4 len) ≡ bytes 4 len ++ drop 4 h =
      splice-drop (bytes 4 len) h (omega (arith, size)) in
    let count : (from_bytes (bytes 4 len) + 2 ^ 32 - 4) % 2 ^ 32 ≡ len - 4 = omega arith in
    let body : drop 4 (h ++ concat r) ≡ drop 4 h ++ concat r =
      drop-append_short 4 h (concat r) (omega (arith, size)) in
    let n = length-drop 4 h in
    rw (head, count, body)
      (elim (Bool-cases (ltb (len - 4) (block_size - 4))) [
        | inl one ↦
            rw (one, take-append_short (len - 4) (drop 4 h) (concat r) (ground (arith, n, size)))
              refl
        | inr many ↦
            let m = len - 4 - (block_size - 4) in
            let q : len - 4 ≡ length (drop 4 h) + m = ground (arith, n, size) in
            let l : m ≤ length (concat r) = omega (arith, size, length-append h (concat r), fits) in
            let whole : take (block_size - 4) (drop 4 h) ≡ drop 4 h =
              take-all (block_size - 4) (drop 4 h) (omega (arith, n, size)) in
            rw
              (
                many,
                copy_blocks-take m r full l,
                whole,
                take-append_long (len - 4) m (drop 4 h) (concat r) q,
              )
              refl
      ])

-- The bytes of a chain: those pushed, and the rest of the last block.
concat-chain :
    (b : WriteBlock) → concat (b.full ++ b.current ∷ []) ≡ contents b ++ drop b.ptr b.current
concat-chain b =
    concat-append b.full (b.current ∷ [])
    ∙ ap (λ zs. concat b.full ++ zs) (append-nil b.current ∙ sym (take-append-drop b.ptr b.current))
    ∙ sym (append_assoc (concat b.full) (take b.ptr b.current) (drop b.ptr b.current))

write_first-seri :
    (full : List Buffer) (current : Buffer) (len : ℕ)
    → AllFull (full ++ current ∷ [])
    → 4 ≤ len
    → len < 2 ^ 31
    → len ≤ length (concat (full ++ current ∷ []))
    → seri (write_first full current (bytes 4 len))
      ≡ some (take (len - 4) (drop 4 (concat (full ++ current ∷ []))))
write_first-seri [] current len h low high fits = seri-header len current [] h low high fits
write_first-seri (b ∷ full) current len h low high fits =
    seri-header len b (full ++ current ∷ []) h low high fits

-- A chain that holds the room for a length and then `bs` gives the message `bs`.
wb_close-seri :
    (b : WriteBlock) (bs : List ℕ)
    → IsValid b
    → contents b ≡ bytes 4 0 ++ bs
    → 4 + length bs < 2 ^ 31
    → seri (wb_close b) ≡ some bs
unfolding wb_close
wb_close-seri b bs (full, size, ptr, len) e h =
    let chain = concat-chain b in
    let k : length (contents b) ≡ b.len = omega (
      arith,
      len,
      length-append (concat b.full) (take b.ptr b.current),
      length-concat_full b.full full,
      length-take b.ptr b.current (omega (arith, size)),
    ) in
    let l : 4 + length bs ≡ b.len = omega (arith, k, ap (λ zs. length zs) e) in
    let fits : b.len ≤ length (concat (b.full ++ b.current ∷ [])) =
      omega
        (arith, k, ap (λ zs. length zs) chain, length-append (contents b) (drop b.ptr b.current)) in
    write_first-seri b.full b.current b.len (AllFull-append b.full b.current full size)
      (omega arith) (omega arith) fits
    ∙ rw (chain, e) (ap some (take-append (b.len - 4) bs (drop b.ptr b.current) (omega arith)))

-- The blocks of a message are invisible: if the arguments are packed as `ps`, and the message with
-- its length is shorter than 2 ^ 31 bytes, the message is the bytes of `ps` in order.
pub luaseri_pack-concat :
    (vs : List Value) (ps : Pushes)
    → pack_from vs ≡ some ps
    → 4 + length (concat ps) < 2 ^ 31
    → luaseri_pack vs ≡ some (concat ps)
unfolding luaseri_pack
luaseri_pack-concat vs ps e h =
    let (b, e₁, (valid, c)) = wb_init-Pushed in
    let (b', e₂, (valid', c')) = wb_pushes-Pushed b ps valid in
    rw (e, e₁, e₂) (wb_close-seri b' (concat ps) valid' (c' ∙ ap (λ zs. zs ++ concat ps) c) h)
