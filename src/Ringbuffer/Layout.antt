-- ===== src/Ringbuffer/Layout.antt =====
-- How the blocks of the buffer lie: each begins where the one before it ends, from 0 to the size.
use dn_server.Common.{
  ℕ, ◌+◌, ◌*◌, ◌/◌, ◌≤◌, ◌<◌, ◌≡◌, ◌≢◌, refl, sym, ap, subst, ◌⊎◌, inl, inr, true, false, none,
  some, ltb, ◌==◌, eq→==, ne→==, Bool-cases, arith,
}
use dn_server.Ringbuffer.{Block, Ringbuffer, align, is_held, set_block, block_next}

-- From an offset on, blocks of the given kind, one after the other, up to an end.
pub data Chain (kind : Block → Type 0) (m : ℕ → Block) (e : ℕ) : ℕ → Type 0 where
  stop : {o : ℕ} → o ≡ e → Chain kind m e o
  link :
      {o : ℕ}
      → 0 < (m o).length
      → kind (m o)
      → Chain kind m e (o + align (m o).length)
      → Chain kind m e o

abbrev pub Any : Block → Type 0
Any b = Unit

abbrev pub Free : Block → Type 0
Free b = is_held b ≡ false

module _ {kind : Block → Type 0} {m : ℕ → Block} where
  pub chain_le : {e o : ℕ} → Chain kind m e o → o ≤ e
  chain_le (stop eq) = omega (arith, eq)
  chain_le (link pos k c) = omega (arith, chain_le c)

  -- Blocks take a multiple of four bytes.
  pub chain_fours : {e o : ℕ} → Chain kind m e o → (q : ℕ) × (e ≡ o + q * 4)
  chain_fours (stop eq) = (0, omega (arith, eq))
  chain_fours {e} {o} (link pos k c) =
      let (q, eq) = chain_fours c in (q + ((m o).length + 3) / 4, omega (arith, eq))

  pub chain_append : {b c a : ℕ} → Chain kind m b a → Chain kind m c b → Chain kind m c a
  chain_append {b} {c} {a} (stop eq) rest = subst (Chain kind m c) (sym eq) rest
  chain_append (link pos k chain) rest = link pos k (chain_append chain rest)

  pub chain_weaken :
      {other : Block → Type 0} {e o : ℕ}
      → ((b : Block) → kind b → other b)
      → Chain kind m e o
      → Chain other m e o
  chain_weaken f (stop eq) = stop eq
  chain_weaken f (link pos k c) = link pos (f _ k) (chain_weaken f c)

  pub chain_frame :
      {m' : ℕ → Block} {e o : ℕ}
      → ((i : ℕ) → o ≤ i → i < e → m' i ≡ m i)
      → Chain kind m e o
      → Chain kind m' e o
  chain_frame f (stop eq) = stop eq
  chain_frame {m'} {e} {o} f (link pos k c) =
      let le = chain_le c in
      let eq = f o (omega arith) (omega arith) in
      let rest = chain_frame (λ i lo hi. f i (omega arith) hi) c in
      link (subst (λ b. 0 < b.length) (sym eq) pos) (subst kind (sym eq) k)
        (subst (λ b. Chain kind m' e (o + align b.length)) (sym eq) rest)

  -- Only the lengths of the blocks place them, and of these the multiples of four.
  pub chain_aligned :
      {m' : ℕ → Block} {e o : ℕ}
      → ((i : ℕ) → align (m' i).length ≡ align (m i).length)
      → ((i : ℕ) → 0 < (m i).length → 0 < (m' i).length)
      → Chain kind m e o
      → Chain Any m' e o
  chain_aligned f g (stop eq) = stop eq
  chain_aligned {m'} {e} {o} f g (link pos k c) =
      link (g o pos) tt (subst (λ n. Chain Any m' e (o + n)) (sym (f o)) (chain_aligned f g c))

  pub chain_lengths :
      {m' : ℕ → Block} {e o : ℕ}
      → ((i : ℕ) → (m' i).length ≡ (m i).length)
      → Chain kind m e o
      → Chain Any m' e o
  chain_lengths {m'} f c =
      chain_aligned (λ i. ap align (f i)) (λ i pos. subst (λ n. 0 < n) (sym (f i)) pos) c

  -- Two chains from one offset run along the same blocks.
  pub chain_split :
      {other : Block → Type 0} {a b o : ℕ}
      → a ≤ b
      → Chain kind m a o
      → Chain other m b o
      → Chain other m b a
  chain_split {other} {a} {b} le (stop eq) d = subst (Chain other m b) eq d
  chain_split le (link pos k c) (stop eq) = absurd (omega (arith, eq, chain_le c))
  chain_split le (link pos k c) (link pos' k' d) = chain_split le c d

  pub chain_first : {e o : ℕ} → o < e → Chain kind m e o → kind (m o)
  chain_first h (stop eq) = absurd (omega (arith, eq))
  chain_first h (link pos k c) = k

  pub chain_positive : {e o : ℕ} → o < e → Chain kind m e o → 0 < (m o).length
  chain_positive h (stop eq) = absurd (omega (arith, eq))
  chain_positive h (link pos k c) = pos

  pub chain_rest : {e o : ℕ} → o < e → Chain kind m e o → Chain kind m e (o + align (m o).length)
  chain_rest h (stop eq) = absurd (omega (arith, eq))
  chain_rest h (link pos k c) = c

-- A block starts at an offset.
abbrev pub IsBlock : Ringbuffer → ℕ → Type 0
IsBlock rb o = Chain Any rb.blocks o 0 × Chain Any rb.blocks rb.size o × (o < rb.size)

-- The blocks fill the buffer, and one of them starts at the head.
abbrev pub IsValid : Ringbuffer → Type 0
IsValid rb = IsBlock rb rb.head

-- A connection holds the block at an offset.
abbrev pub IsHeldAt : Ringbuffer → ℕ → Type 0
IsHeldAt rb o = IsBlock rb o × (is_held (rb.blocks o) ≡ true)

pub set_block_self : (rb : Ringbuffer) (o : ℕ) (b : Block) → (set_block rb o b).blocks o ≡ b
set_block_self rb o b = rw (eq→== o o refl) refl

pub set_block_other :
    (rb : Ringbuffer) (o : ℕ) (b : Block) (i : ℕ)
    → i ≢ o
    → (set_block rb o b).blocks i ≡ rb.blocks i
set_block_other rb o b i h = rw (ne→== i o h) refl

pub block_next-end :
    (rb : Ringbuffer) (o : ℕ)
    → o + align (rb.blocks o).length ≡ rb.size
    → block_next rb o ≡ some none
unfolding block_next
block_next-end rb o h = rw (eq→== (align (rb.blocks o).length + o) rb.size (omega (arith, h))) refl

pub block_next-next :
    (rb : Ringbuffer) (o : ℕ)
    → o + align (rb.blocks o).length < rb.size
    → block_next rb o ≡ some (some (o + align (rb.blocks o).length))
unfolding block_next
block_next-next rb o h =
    let a : (align (rb.blocks o).length + o == rb.size) ≡ false = ground arith in
    let b : ltb (align (rb.blocks o).length + o) rb.size ≡ true = ground arith in rw (a, b) refl

-- Free blocks between two offsets, and blocks before and behind them.
pub record Gap (rb : Ringbuffer) (a k : ℕ) : Type 0 where
  pub before : Chain Any rb.blocks a 0
  pub free : Chain Free rb.blocks k a
  pub behind : Chain Any rb.blocks rb.size k

-- A block that is held stands before the gap or behind it.
Gap-is_held :
    (rb : Ringbuffer) (a k o : ℕ)
    → Gap rb a k
    → IsHeldAt rb o
    → ((o < a) × (o + align (rb.blocks o).length ≤ a) × Chain Any rb.blocks a o)
      ⊎ ((k ≤ o) × Chain Any rb.blocks o k)
Gap-is_held rb a k o gap ((from, to, lt), held) = elim (Bool-cases (ltb o a)) [
  | inl left ↦
      let le : o < a = ground arith in
      let c = chain_split (omega (arith, le)) from gap.before in
      inl (le, chain_le (chain_rest le c), c)
  | inr right ↦
      let c = chain_split (ground arith) gap.before from in
      elim (Bool-cases (ltb o k)) [
        | inl inside ↦
            let f = chain_first (ground arith) (chain_split (ground arith) c gap.free) in
            absurd (ground arith)
        | inr outside ↦ inr (ground arith, chain_split (ground arith) gap.free c)
      ]
]

-- The same gap in two buffers that agree outside of it: what one holds, the other holds.
pub Gap-IsHeldAt :
    (rb rb' : Ringbuffer) (a k o : ℕ)
    → Gap rb a k
    → Gap rb' a k
    → rb'.size ≡ rb.size
    → ((i : ℕ) → (i < a) ⊎ (k ≤ i) → rb'.blocks i ≡ rb.blocks i)
    → IsHeldAt rb o
    → IsHeldAt rb' o
      × (rb'.blocks o ≡ rb.blocks o)
      × ((o + align (rb.blocks o).length ≤ a) ⊎ (k ≤ o))
Gap-IsHeldAt rb rb' a k o gap gap' size same ((from, to, lt), held) =
    elim (Gap-is_held rb a k o gap ((from, to, lt), held)) [
      | inl (le, ends, c) ↦
          let e = same o (inl le) in
          let c' = chain_frame (λ i l h. same i (inl h)) c in
          let rest =
            chain_append c' (chain_append (chain_weaken (λ b f. tt) gap'.free) gap'.behind) in
          (
            (
              (chain_frame (λ i l h. same i (inl (omega arith))) from, rest, omega (arith, size)),
              subst (λ b. is_held b ≡ true) (sym e) held,
            ),
            e,
            inl ends,
          )
      | inr (le, c) ↦
          let e = same o (inr le) in
          let c' = chain_frame (λ i l h. same i (inr l)) c in
          let start =
            chain_append gap'.before (chain_append (chain_weaken (λ b f. tt) gap'.free) c') in
          let rest =
            subst (λ n. Chain Any rb'.blocks n o) (sym size)
              (chain_frame (λ i l h. same i (inr (omega arith))) to) in
          (
            ((start, rest, omega (arith, size)), subst (λ b. is_held b ≡ true) (sym e) held),
            e,
            inr le,
          )
    ]
