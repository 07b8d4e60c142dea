-- ===== src/Handle/Slots.antt =====
-- The slots of the handle storage: where a handle belongs, and the search for a free slot.
use native.Mathlib.Nat.{
  mod-mod_of_dvd, mod-add-mod, mod-lt, mod-eq_of_lt, mod-add-div, add-mul-mod_self_left, pow-suc,
  dvd_refl, dvd-mul_right_of_dvd,
}
use Prim.Native.Nat.{◌∣◌}
use native.Mathlib.Decide.{ℕ_discrete}
use dn_server.Common.{
  ℕ, zero, suc, ◌+◌, ◌-◌, ◌*◌, ◌/◌, ◌%◌, ◌^◌, ◌≤◌, ◌<◌, ◌≡◌, sym, ap, ◌∙◌, subst, inl, inr, List,
  Option, none, some, length, arith, Option-cases,
}
use dn_server.Context.{Heap}
use dn_server.Handle.{HandleStorage, handle_bits, slot_at, find_slot}

-- Every context stands in the slot of its handle.
abbrev pub IsHashed : Heap → ℕ → List (Option ℕ) → Type 0
IsHashed heap size slot = (i ctx : ℕ) → slot_at slot i ≡ some ctx → (heap ctx).handle % size ≡ i

pub record IsValid (heap : Heap) (s : HandleStorage) : Type 0 where
  pub exponent : ℕ
  pub power : s.slot_size ≡ 2 ^ exponent
  pub small : exponent ≤ 24
  pub cells : length s.slot ≡ s.slot_size
  pub hashed : IsHashed heap s.slot_size s.slot
  pub harbor_high : s.harbor % handle_bits ≡ 0

pow-pos : (k : ℕ) → 0 < 2 ^ k
pow-pos zero = omega arith
pow-pos (suc k) = omega (arith, pow-suc 2 k, pow-pos k)

pow-dvd : (k d : ℕ) → 2 ^ k ∣ 2 ^ (k + d)
pow-dvd k zero = let e : k + 0 ≡ k = omega arith in rw e (dvd_refl (2 ^ k))
pow-dvd k (suc d) =
    let e : k + suc d ≡ suc (k + d) = omega arith in
    rw (e, pow-suc 2 (k + d)) (dvd-mul_right_of_dvd (2 ^ k) (pow-dvd k d) 2)

-- The slot count divides the number of handles.
pub slot_size-dvd : {heap : Heap} {s : HandleStorage} → IsValid heap s → s.slot_size ∣ handle_bits
slot_size-dvd {heap} {s} v =
    let e : v.exponent + (24 - v.exponent) ≡ 24 = (let l = v.small in omega arith) in
    rw v.power (subst (λ k. 2 ^ v.exponent ∣ 2 ^ k) e (pow-dvd v.exponent (24 - v.exponent)))

pub slot_size-pos : {heap : Heap} {s : HandleStorage} → IsValid heap s → 0 < s.slot_size
slot_size-pos v = rw v.power (pow-pos v.exponent)

-- An index below `size` that the search maps to slot `j`.
index_of : ℕ → ℕ → ℕ → ℕ
index_of index size j = (j + size - index % size) % size

index_of-slot : (index size j : ℕ) → j < size → (index_of index size j + index) % size ≡ j
unfolding index_of
index_of-slot index size j h =
    let r : index % size < size = mod-lt index (omega arith) in
    let q = index / size in
    let e : j + size - index % size + index ≡ j + size * suc q =
      (let d = mod-add-div index size in grind arith) in
    mod-add-mod (j + size - index % size) size index
    ∙ ap (λ k. k % size) e
    ∙ add-mul-mod_self_left j size (suc q)
    ∙ mod-eq_of_lt h

index_of-lt : (index size j : ℕ) → 0 < size → index_of index size j < size
unfolding index_of
index_of-lt index size j h = mod-lt (j + size - index % size) h

-- A slot that a search finds is free, and its handle has 24 bits.
pub find_slot-some :
    (s : HandleStorage) (n i : ℕ) {h : ℕ}
    → find_slot s n i ≡ some h
    → (slot_at s.slot (h % s.slot_size) ≡ none) × (h < handle_bits)
unfolding find_slot
find_slot-some s zero i e = absurd (cc)
find_slot-some s (suc n) i {h} e =
    elim (Option-cases (slot_at s.slot ((i + s.handle_index) % handle_bits % s.slot_size))) [
      | inl free ↦
          let p : some ((i + s.handle_index) % handle_bits) ≡ some h = rw (free, find_slot) at e in
          let e' : (i + s.handle_index) % handle_bits ≡ h = cc in rw (← e') (free, omega arith)
      | inr (ctx, full) ↦ find_slot-some s n (i + 1) (rw (full, find_slot) at e)
    ]

find_slot-none :
    (s : HandleStorage) (n i k : ℕ)
    → find_slot s n i ≡ none
    → i ≤ k
    → k < i + n
    → (ctx : ℕ) × (slot_at s.slot ((k + s.handle_index) % handle_bits % s.slot_size) ≡ some ctx)
unfolding find_slot
find_slot-none s zero i k e h l = absurd (omega arith)
find_slot-none s (suc n) i k e h l =
    elim (Option-cases (slot_at s.slot ((i + s.handle_index) % handle_bits % s.slot_size))) [
      | inl free ↦ absurd (let e' = rw (free, find_slot) at e in cc)
      | inr (ctx, full) ↦ elim (ℕ_discrete i k) [
        | yes same ↦ (ctx, rw (← same) full)
        | no other ↦
            find_slot-none s n (i + 1) k (rw (full, find_slot) at e) (omega arith) (omega arith)
      ]
    ]

-- A search over all slots fails only where every slot is taken.
pub find_slot-full :
    (heap : Heap) (s : HandleStorage) (j : ℕ)
    → IsValid heap s
    → find_slot s s.slot_size 0 ≡ none
    → j < s.slot_size
    → (ctx : ℕ) × (slot_at s.slot j ≡ some ctx)
find_slot-full heap s j v e h =
    let i = index_of s.handle_index s.slot_size j in
    let (ctx, p) =
      find_slot-none s s.slot_size 0 i e (omega arith)
        (omega (arith, index_of-lt s.handle_index s.slot_size j (slot_size-pos v))) in
    let q : (i + s.handle_index) % handle_bits % s.slot_size ≡ j =
      mod-mod_of_dvd s.slot_size (i + s.handle_index) (slot_size-dvd v)
      ∙ index_of-slot s.handle_index s.slot_size j h in
    (ctx, ap (slot_at s.slot) (sym q) ∙ p)
