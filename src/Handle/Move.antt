-- ===== src/Handle/Move.antt =====
-- The loop of `skynet_handle_register` that moves the contexts to the larger array.
use native.Mathlib.Nat.{mod-mod_of_dvd, mod-lt, dvd-mul_right}
use native.Mathlib.Decide.{ℕ_discrete}
use dn_server.Common.{
  ℕ, zero, suc, ◌+◌, ◌*◌, ◌%◌, ◌<◌, ◌≡◌, ◌≢◌, refl, sym, ap, ◌∙◌, subst, inl, inr, List, [], ◌∷◌,
  Option, none, some, ◌==◌, if◌then◌else◌, set, replicate, length, arith, Option-cases, length-set,
  get_or-set_self, get_or-set_ne, length-replicate,
}
use dn_server.Context.{Heap}
use dn_server.Handle.{slot_at, rehash}
use dn_server.Handle.Slots.{IsHashed}

pub slot_at-set :
    (slot : List (Option ℕ)) (i k : ℕ) (x : Option ℕ)
    → i < length slot
    → slot_at (set slot i x) k ≡ (if k == i then x else slot_at slot k)
slot_at-set slot i k x h = elim (ℕ_discrete k i) [
  | yes same ↦ rw same (get_or-set_self slot i x none h ∙ ground arith)
  | no other ↦ get_or-set_ne slot i k x none (λ p. other (omega arith)) ∙ ground arith
]

-- The first `n` of the old slots have been moved.
pub record Moved (heap : Heap) (size : ℕ) (old : List (Option ℕ)) (n : ℕ) (new : List (Option ℕ))
    : Type 0 where
  pub cells : length new ≡ size * 2
  pub come_from :
      (j ctx : ℕ)
      → slot_at new j ≡ some ctx
      → ((heap ctx).handle % (size * 2) ≡ j) × (j % size < n) × (slot_at old (j % size) ≡ some ctx)
  pub go_to :
      (i ctx : ℕ)
      → i < n
      → slot_at old i ≡ some ctx
      → slot_at new ((heap ctx).handle % (size * 2)) ≡ some ctx

module _ (heap : Heap) (size : ℕ) (old : List (Option ℕ)) (pos : 0 < size)
    (hashed : IsHashed heap size old) where
  hash-mod : (i ctx : ℕ) → slot_at old i ≡ some ctx → (heap ctx).handle % (size * 2) % size ≡ i
  hash-mod i ctx e = mod-mod_of_dvd size (heap ctx).handle (dvd-mul_right size 2) ∙ hashed i ctx e

  hash-lt : (ctx : ℕ) → (heap ctx).handle % (size * 2) < size * 2
  hash-lt ctx = mod-lt (heap ctx).handle (omega arith)

  module _ (n ctx : ℕ) (new : List (Option ℕ)) (m : Moved heap size old n new)
      (e : slot_at old n ≡ some ctx) where
    abbrev hash : ℕ
    hash = (heap ctx).handle % (size * 2)

    hash_free : slot_at new hash ≡ none
    hash_free = elim (Option-cases (slot_at new hash)) [
      | inl free ↦ free
      | inr (other, taken) ↦
          absurd (let (a, b, c) = m.come_from hash other taken in omega (arith, hash-mod n ctx e))
    ]

    slot_at-new :
        (k : ℕ)
        → slot_at (set new hash (some ctx)) k ≡ (if k == hash then some ctx else slot_at new k)
    slot_at-new k = slot_at-set new hash k (some ctx) (omega (arith, hash-lt ctx, m.cells))

    Moved-step : Moved heap size old (suc n) (set new hash (some ctx))
    Moved-step = record {
      cells = length-set new hash (some ctx) ∙ m.cells;
      come_from = λ j c p. elim (ℕ_discrete j hash) [
        | yes q ↦
            let same : c ≡ ctx = ground (arith, slot_at-new j) in
            let r : j % size ≡ n = ap (λ k. k % size) q ∙ hash-mod n ctx e in
            (rw same (sym q), omega arith, rw (r, same) e)
        | no q ↦
            (let (a, b, d) = m.come_from j c (ground (arith, slot_at-new j)) in (a, omega arith, d))
      ];
      go_to = λ i c h p. elim (ℕ_discrete i n) [
        | yes q ↦
            let p' : slot_at old n ≡ some c = rw q at p in
            let same : c ≡ ctx = cc in rw same (slot_at-new hash ∙ ground arith)
        | no q ↦
            let ne : (heap c).handle % (size * 2) ≢ hash =
              λ r. q (sym (hash-mod i c p) ∙ ap (λ k. k % size) r ∙ hash-mod n ctx e) in
            slot_at-new ((heap c).handle % (size * 2))
            ∙ ground (arith, ne, m.go_to i c (omega arith) p)
      ];
    }

  pub rehash-Moved :
      (n : ℕ) (rest new : List (Option ℕ))
      → n + length rest ≡ size
      → ((i : ℕ) → slot_at rest i ≡ slot_at old (n + i))
      → ((i : ℕ) → i < size → (ctx : ℕ) × (slot_at old i ≡ some ctx))
      → Moved heap size old n new
      → (slot : List (Option ℕ)) × (rehash heap (size * 2) rest new ≡ some slot)
        × Moved heap size old size slot
  unfolding rehash
  rehash-Moved n [] new e tail full m =
      let e' : n ≡ size = omega arith in (new, refl, subst (λ k. Moved heap size old k new) e' m)
  rehash-Moved n (none ∷ rest) new e tail full m =
      let (ctx, p) = full n (omega arith) in
      let n0 : n + 0 ≡ n = omega arith in
      let q : none ≡ slot_at old n = tail 0 ∙ ap (slot_at old) n0 in absurd (cc)
  rehash-Moved n (some ctx ∷ rest) new e tail full m =
      let n0 : n + 0 ≡ n = omega arith in
      let p : slot_at old n ≡ some ctx = sym (tail 0 ∙ ap (slot_at old) n0) in
      let (slot, r, w) =
        rehash-Moved (suc n) rest (set new ((heap ctx).handle % (size * 2)) (some ctx))
          (omega arith)
          (λ i. let s1 : n + suc i ≡ suc n + i = omega arith in tail (suc i) ∙ ap (slot_at old) s1)
          full (Moved-step n ctx new m p) in
      (slot, rw (hash_free n ctx new m p, rehash) r, w)

slot_at-replicate : (n j : ℕ) → slot_at (replicate n none) j ≡ none
slot_at-replicate zero j = refl
slot_at-replicate (suc n) zero = refl
slot_at-replicate (suc n) (suc j) = slot_at-replicate n j

pub nothing-Moved :
    (heap : Heap) (size : ℕ) (old : List (Option ℕ))
    → Moved heap size old 0 (replicate (size * 2) none)
nothing-Moved heap size old = record {
  cells = length-replicate (size * 2) none;
  come_from = λ j ctx e. absurd (let n = slot_at-replicate (size * 2) j in cc (e, n));
  go_to = λ i ctx h e. absurd (omega arith);
}
