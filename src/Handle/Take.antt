-- ===== src/Handle/Take.antt =====
-- A slot of `skynet_handle_register` that a new context takes.
use native.Mathlib.Nat.{mod-mod_of_dvd, mod-lt, add-mod-mod, zero-mod}
use native.Mathlib.Decide.{ℕ_discrete}
use dn_server.Common.{
  ℕ, ◌+◌, ◌%◌, ◌≡◌, ◌≢◌, sym, ap, ◌∙◌, inl, inr, none, some, ◌==◌, if◌then◌else◌, arith,
  Option-cases, length-set,
}
use dn_server.Context.{Context, Heap}
use dn_server.Handle.{HandleStorage, slot_at, resolve, take_slot}
use dn_server.Handle.Slots.{IsValid, slot_size-dvd, slot_size-pos}
use dn_server.Handle.Move.{slot_at-set}

-- The context stands in no slot.
abbrev pub IsNew : HandleStorage → ℕ → Type 0
IsNew s ctx = (i : ℕ) → slot_at s.slot i ≢ some ctx

module _ (heap : Heap) (s : HandleStorage) (ctx h : ℕ) (v : IsValid heap s) (new : IsNew s ctx)
    (free : slot_at s.slot (h % s.slot_size) ≡ none) where
  abbrev full_handle : ℕ
  full_handle = (take_slot heap s ctx h).0

  abbrev pub s' : HandleStorage
  s' = (take_slot heap s ctx h).1

  abbrev pub heap' : Heap
  heap' = (take_slot heap s ctx h).2

  full_handle-mod : full_handle % s.slot_size ≡ h % s.slot_size
  full_handle-mod =
      let z : s.harbor % s.slot_size ≡ 0 =
        sym (mod-mod_of_dvd s.slot_size s.harbor (slot_size-dvd v))
        ∙ ap (λ k. k % s.slot_size) v.harbor_high
        ∙ zero-mod s.slot_size in
      let e : h + 0 ≡ h = omega arith in
      sym (add-mod-mod h s.harbor s.slot_size)
      ∙ ap (λ k. (h + k) % s.slot_size) z
      ∙ ap (λ k. k % s.slot_size) e

  slot_at-taken :
      (k : ℕ) → slot_at s'.slot k ≡ (if k == h % s.slot_size then some ctx else slot_at s.slot k)
  slot_at-taken k =
      slot_at-set s.slot (h % s.slot_size) k (some ctx)
        (omega (arith, v.cells, mod-lt h (slot_size-pos v)))

  -- The other contexts are as they were.
  heap-kept : (i c : ℕ) → slot_at s.slot i ≡ some c → heap' c ≡ heap c
  heap-kept i c e = let ne : c ≢ ctx = λ q. new i (e ∙ ap some q) in ground arith

  pub taken-IsValid : IsValid heap' s'
  taken-IsValid = record {
    exponent = v.exponent;
    power = v.power;
    small = v.small;
    cells = length-set s.slot (h % s.slot_size) (some ctx) ∙ v.cells;
    hashed = λ i c e. elim (ℕ_discrete i (h % s.slot_size)) [
      | yes q ↦
          let c-eq : c ≡ ctx = ground (arith, slot_at-taken i) in
          let hp : (heap' ctx).handle ≡ full_handle = ground arith in
          ap (λ x. (heap' x).handle % s.slot_size) c-eq
          ∙ ap (λ x. x % s.slot_size) hp
          ∙ full_handle-mod
          ∙ sym q
      | no q ↦
          let e' : slot_at s.slot i ≡ some c = ground (arith, slot_at-taken i) in
          ap (λ (x : Context). x.handle % s.slot_size) (heap-kept i c e') ∙ v.hashed i c e'
    ];
    harbor_high = v.harbor_high;
  }

  pub resolve-new : resolve heap' s' full_handle ≡ some ctx
  unfolding resolve
  resolve-new =
      let e : slot_at s'.slot (full_handle % s.slot_size) ≡ some ctx =
        slot_at-taken (full_handle % s.slot_size) ∙ ground (arith, full_handle-mod) in
      ground (arith, e)

  pub resolve-old : resolve heap s full_handle ≡ none
  unfolding resolve
  resolve-old =
      let e : slot_at s.slot (full_handle % s.slot_size) ≡ none =
        ap (slot_at s.slot) full_handle-mod ∙ free in
      ground (arith, e)

  pub resolve-kept : (k : ℕ) → k ≢ full_handle → resolve heap' s' k ≡ resolve heap s k
  unfolding resolve
  resolve-kept k ne = elim (ℕ_discrete (k % s.slot_size) (h % s.slot_size)) [
    | yes q ↦
        let e : slot_at s'.slot (k % s.slot_size) ≡ some ctx =
          slot_at-taken (k % s.slot_size) ∙ ground arith in
        let e' : slot_at s.slot (k % s.slot_size) ≡ none = ap (slot_at s.slot) q ∙ free in
        ground (arith, e, e')
    | no q ↦
        let e : slot_at s'.slot (k % s.slot_size) ≡ slot_at s.slot (k % s.slot_size) =
          slot_at-taken (k % s.slot_size) ∙ ground arith in
        elim (Option-cases (slot_at s.slot (k % s.slot_size))) [
          | inl empty ↦ ground (arith, e, empty)
          | inr (c, taken) ↦
              let k' = heap-kept (k % s.slot_size) c taken in
              let k'' : (heap' c).handle ≡ (heap c).handle = ap (λ (x : Context). x.handle) k' in
              ground (arith, e, taken, k'')
        ]
  ]
