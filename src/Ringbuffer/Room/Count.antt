-- ===== src/Ringbuffer/Room/Count.antt =====
-- The number of blocks that connections hold, which every collection makes smaller.
use dn_server.Common.{
  ℕ, zero, suc, ◌+◌, ◌≤◌, ◌<◌, ◌≡◌, refl, sym, subst, inl, inr, true, false, ltb, if◌then◌else◌,
  Bool-cases, arith,
}
use dn_server.Ringbuffer.{Block, align, is_held}
use dn_server.Ringbuffer.Layout.{Chain, stop, link, Any, chain_le}

pub count : ℕ → (ℕ → Block) → ℕ → ℕ → ℕ
count zero m e o = 0
count (suc fuel) m e o =
    let rest = count fuel m e (o + align (m o).length) in
    if ltb o e then (if is_held (m o) then suc rest else rest) else 0

pub count_le : (fuel : ℕ) (m : ℕ → Block) (e o : ℕ) → count fuel m e o ≤ fuel
unfolding count
count_le zero m e o = omega arith
count_le (suc fuel) m e o = ground (arith, count_le fuel m e (o + align (m o).length))

module _ (m m' : ℕ → Block) (lengths : (i : ℕ) → (m' i).length ≡ (m i).length) where
  -- The rest of the blocks begins at the same offset in both.
  at_rest :
      (fuel e o n : ℕ)
      → n + count fuel m' e (o + align (m o).length) ≤ count fuel m e (o + align (m o).length)
      → n + count fuel m' e (o + align (m' o).length) ≤ count fuel m e (o + align (m o).length)
  at_rest fuel e o n h =
      subst (λ l. n + count fuel m' e (o + align l) ≤ count fuel m e (o + align (m o).length))
        (sym (lengths o)) h

  -- No block gets a holder.
  count-kept :
      (fuel e o : ℕ)
      → ((p : ℕ) → Chain Any m p o → p < e → is_held (m' p) ≡ true → is_held (m p) ≡ true)
      → Chain Any m e o
      → count fuel m' e o ≤ count fuel m e o
  unfolding count
  count-kept zero e o f c = omega arith
  count-kept (suc fuel) e o f (stop eq) =
      let no : ltb o e ≡ false = ground arith in rw no (omega arith)
  count-kept (suc fuel) e o f (link pos k c) =
      let le = chain_le c in
      let yes : ltb o e ≡ true = ground arith in
      let h = at_rest fuel e o 0 (
        omega (
          arith,
          count-kept fuel e (o + align (m o).length) (λ p d lt. f p (link pos k d) lt) c,
        )) in
      let here = f o (stop refl) (omega arith) in
      rw yes (elim (Bool-cases (is_held (m' o))) [
        | inl new ↦ rw (new, here new) (omega (arith, h))
        | inr free ↦ rw free (ground (arith, h))
      ])

  -- One of the blocks loses its holder.
  pub count-freed :
      (fuel e o p : ℕ)
      → ((p : ℕ) → Chain Any m p o → p < e → is_held (m' p) ≡ true → is_held (m p) ≡ true)
      → Chain Any m e o
      → Chain Any m p o
      → p < e
      → e ≤ o + fuel
      → is_held (m p) ≡ true
      → is_held (m' p) ≡ false
      → count fuel m' e o < count fuel m e o
  unfolding count
  count-freed zero e o p f c d lt h old new = absurd (omega (arith, chain_le d))
  count-freed (suc fuel) e o p f (stop eq) d lt h old new = absurd (omega (arith, chain_le d))
  count-freed (suc fuel) e o p f (link pos k c) (stop eq) lt h old new =
      let le = chain_le c in
      let yes : ltb o e ≡ true = ground arith in
      let rest = at_rest fuel e o 0 (
        omega (
          arith,
          count-kept fuel e (o + align (m o).length) (λ p d lt. f p (link pos k d) lt) c,
        )) in
      let old' : is_held (m o) ≡ true = subst (λ i. is_held (m i) ≡ true) (sym eq) old in
      let new' : is_held (m' o) ≡ false = subst (λ i. is_held (m' i) ≡ false) (sym eq) new in
      rw (yes, old', new') (omega (arith, rest))
  count-freed (suc fuel) e o p f (link pos k c) (link pos' k' d) lt h old new =
      let le = chain_le c in
      let yes : ltb o e ≡ true = ground arith in
      let rest = at_rest fuel e o 1 (
        omega (
          arith,
          count-freed fuel e (o + align (m o).length) p (λ p d lt. f p (link pos k d) lt) c d lt
              (omega arith) old new,
        )) in
      let here = f o (stop refl) (omega arith) in
      rw yes (elim (Bool-cases (is_held (m' o))) [
        | inl held ↦ rw (held, here held) (omega (arith, rest))
        | inr free ↦ rw free (ground (arith, rest))
      ])
