-- ===== src/Handle/Rehash.antt =====
-- The larger slot array of `skynet_handle_register`.
use native.Mathlib.Nat.{
  mod-mod_of_dvd, mod-lt, mod-eq_of_lt, mod_self, dvd-mul_right, pow-suc, pow-le-pow_right,
}
use native.Mathlib.Decide.{dec_lt, ℕ_discrete}
use dn_server.Common.{
  ℕ, suc, ◌-◌, ◌*◌, ◌%◌, ◌^◌, ◌≤◌, ◌<◌, ◌≡◌, ◌≢◌, refl, sym, ap, ◌∙◌, inl, inr, false, List, Option,
  none, some, leb, replicate, arith, Option-cases,
}
use dn_server.Context.{Heap}
use dn_server.Handle.{HandleStorage, handle_bits, slot_at, find_slot, resolve, grow}
use dn_server.Handle.Slots.{IsValid, slot_size-pos, find_slot-full}
use dn_server.Handle.Move.{rehash-Moved, nothing-Moved, Moved}

-- What the growth of a full storage does: it has twice as many slots, every handle resolves as
-- before, and a slot is free.
pub record Grown (heap : Heap) (s s' : HandleStorage) : Type 0 where
  pub valid : IsValid heap s'
  pub same : (handle : ℕ) → resolve heap s' handle ≡ resolve heap s handle
  pub free : find_slot s' s'.slot_size 0 ≢ none
  pub kept : (s'.harbor ≡ s.harbor) × (s'.handle_index ≡ s.handle_index)
  pub names : s'.names ≡ s.names
  pub held :
      (ctx : ℕ) → ((i : ℕ) → slot_at s.slot i ≢ some ctx) → (i : ℕ) → slot_at s'.slot i ≢ some ctx

module _ (heap : Heap) (s : HandleStorage) (v : IsValid heap s)
    (full : (i : ℕ) → i < s.slot_size → (ctx : ℕ) × (slot_at s.slot i ≡ some ctx))
    (slot : List (Option ℕ)) (m : Moved heap s.slot_size s.slot s.slot_size slot)
    (low : v.exponent < 24) where
  abbrev s' : HandleStorage
  s' = record s { slot = slot; slot_size = s.slot_size * 2 }

  grown-IsValid : IsValid heap s'
  grown-IsValid = record {
    exponent = suc v.exponent;
    power = rw (pow-suc 2 v.exponent, v.power);
    small = low;
    cells = m.cells;
    hashed = λ j ctx e. (m.come_from j ctx e).0;
    harbor_high = v.harbor_high;
  }

  grown_same : (handle : ℕ) → resolve heap s' handle ≡ resolve heap s handle
  unfolding resolve
  grown_same k =
      let (ctx, e) = full (k % s.slot_size) (mod-lt k (slot_size-pos v)) in
      let r : k % (s.slot_size * 2) % s.slot_size ≡ k % s.slot_size =
        mod-mod_of_dvd s.slot_size k (dvd-mul_right s.slot_size 2) in
      elim (ℕ_discrete (heap ctx).handle k) [
        | yes q ↦
            let g : slot_at slot (k % (s.slot_size * 2)) ≡ some ctx =
              rw q at (m.go_to (k % s.slot_size) ctx (mod-lt k (slot_size-pos v)) e) in
            rw (g, e, resolve)
        | no q ↦ elim (Option-cases (slot_at slot (k % (s.slot_size * 2)))) [
          | inl empty ↦ ground (arith, empty, e)
          | inr (c, taken) ↦
              (let (a, b, d) = m.come_from (k % (s.slot_size * 2)) c taken in
                let same : c ≡ ctx = (let d' = ap (slot_at s.slot) (sym r) in cc (d, d', e)) in
                ground (arith, taken, e, same))
        ]
      ]

  -- Slots 0 and `slot_size` of the new array stem from slot 0 of the old one: one of them is free.
  grown_free : find_slot s' s'.slot_size 0 ≢ none
  grown_free e =
      let pos = slot_size-pos v in
      let (a, p) = find_slot-full heap s' 0 grown-IsValid e (omega arith) in
      let (b, q) = find_slot-full heap s' s.slot_size grown-IsValid e (omega arith) in
      let (p1, p2, p3) = m.come_from 0 a p in
      let (q1, q2, q3) = m.come_from s.slot_size b q in
      let z : 0 % s.slot_size ≡ 0 = mod-eq_of_lt pos in
      let z' : s.slot_size % s.slot_size ≡ 0 = mod_self s.slot_size in
      let same : a ≡ b = cc (p3, q3, ap (slot_at s.slot) z, ap (slot_at s.slot) z') in
      absurd (
        let r : 0 ≡ s.slot_size =
          sym p1 ∙ ap (λ c. (heap c).handle % (s.slot_size * 2)) same ∙ q1 in
        omega arith)

-- Fewer slots than handles are at most half as many.
low_exponent :
    (heap : Heap) (s : HandleStorage) (v : IsValid heap s)
    → s.slot_size < handle_bits
    → v.exponent < 24
low_exponent heap s v room = elim (dec_lt v.exponent 24) [
  | yes p ↦ p
  | no p ↦ absurd (
      let l : 2 ^ 24 ≤ 2 ^ v.exponent =
        pow-le-pow_right {n = 2} (omega arith) {i = 24} (omega arith) in
      omega (arith, v.power))
]

fits_lem :
    (heap : Heap) (s : HandleStorage)
    → IsValid heap s
    → s.slot_size < handle_bits
    → leb handle_bits (s.slot_size * 2 - 1) ≡ false
fits_lem heap s v room =
    let l : 2 ^ suc v.exponent ≤ 2 ^ 24 =
      pow-le-pow_right {n = 2} (omega arith) (low_exponent heap s v room) in
    let l' : s.slot_size * 2 ≤ 2 ^ 24 = omega (arith, v.power, pow-suc 2 v.exponent) in
    let pos = slot_size-pos v in ground arith

-- A full storage of less than 2 ^ 24 slots grows.
pub grow-Grown :
    (heap : Heap) (s : HandleStorage)
    → IsValid heap s
    → find_slot s s.slot_size 0 ≡ none
    → s.slot_size < handle_bits
    → (s' : HandleStorage) × (grow heap s ≡ some s') × Grown heap s s'
unfolding grow
grow-Grown heap s v e room =
    let full = λ (i : ℕ) (h : i < s.slot_size). find_slot-full heap s i v e h in
    let (slot, r, m) =
      rehash-Moved heap s.slot_size s.slot (slot_size-pos v) v.hashed 0 s.slot
        (replicate (s.slot_size * 2) none) (omega (arith, v.cells))
        (λ i. ap (slot_at s.slot) (omega arith)) full (nothing-Moved heap s.slot_size s.slot) in
    let low : v.exponent < 24 = low_exponent heap s v room in
    let fits : leb handle_bits (s.slot_size * 2 - 1) ≡ false = fits_lem heap s v room in
    (
      record s { slot = slot; slot_size = s.slot_size * 2 },
      rw (fits, r),
      record {
        valid = grown-IsValid heap s v full slot m low;
        same = grown_same heap s v full slot m low;
        free = grown_free heap s v full slot m low;
        kept = (refl, refl);
        names = refl;
        held = λ ctx none i p. none (i % s.slot_size) (m.come_from i ctx p).2;
      },
    )
