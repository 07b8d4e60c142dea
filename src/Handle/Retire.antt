-- ===== src/Handle/Retire.antt =====
-- `skynet_handle_retire` and `skynet_handle_grab`.
use native.Mathlib.Nat.{mod-lt}
use native.Mathlib.Decide.{ℕ_discrete}
use dn_server.Common.{
  ℕ, ◌+◌, ◌-◌, ◌%◌, ◌^◌, ◌≡◌, ◌≢◌, refl, sym, ap, ◌∙◌, subst, ◌⊎◌, inl, inr, List, Option, none,
  some, ◌==◌, if◌then◌else◌, set, arith, Option-cases, Bool-cases, length-set,
}
use dn_server.Context.{Context, Heap, context_release}
use dn_server.Names.{findname, remove_names}
use dn_server.Names.Lookup
use dn_server.Names.Remove.{findname-remove_names}
use dn_server.Handle.{HandleStorage, slot_at, write, resolve, retire}
use dn_server.Handle.Slots.{IsValid, slot_size-pos}
use dn_server.Handle.Move.{slot_at-set}

-- The contexts of two heaps have the same handles.
abbrev pub SameHandles : Heap → Heap → Type 0
SameHandles heap heap' = (c : ℕ) → (heap' c).handle ≡ (heap c).handle

pub resolve-same :
    (heap heap' : Heap) (s : HandleStorage) (k : ℕ)
    → SameHandles heap heap'
    → resolve heap' s k ≡ resolve heap s k
unfolding resolve
resolve-same heap heap' s k same = elim (Option-cases (slot_at s.slot (k % s.slot_size))) [
  | inl e ↦ ground (arith, e)
  | inr (c, e) ↦ ground (arith, e, same c)
]

pub write_same :
    (heap : Heap) (ctx : ℕ) (c : Context)
    → c.handle ≡ (heap ctx).handle
    → SameHandles heap (write heap ctx c)
write_same heap ctx c e a = elim (Bool-cases (a == ctx)) [
  | inl q ↦ rw q (e ∙ ap (λ x. (heap x).handle) (ground arith))
  | inr q ↦ rw q
]

-- What a retirement does to a storage: the handle resolves to nothing, every other handle and
-- every name of another handle to what it did, the names of the handle to 0, and the context
-- loses one reference; its deletion is reported exactly if that was the last.
abbrev pub Retires : Heap → HandleStorage → ℕ → Option ℕ × HandleStorage × Heap → Type 0
Retires heap s h (deleted, s', heap') =
    ((resolve heap s h ≡ none) × (deleted ≡ none) × (s' ≡ s) × (heap' ≡ heap))
    ⊎ ((ctx : ℕ) × (resolve heap s h ≡ some ctx)
        × (resolve heap' s' h ≡ none)
        × ((k : ℕ) → k ≢ h → resolve heap' s' k ≡ resolve heap s k)
        × ((key : List ℕ)
            → findname s'.names key
              ≡ (if findname s.names key == h then 0 else findname s.names key))
        × IsValid heap' s'
        × ((heap' ctx).ref ≡ ((heap ctx).ref + 2 ^ 32 - 1) % 2 ^ 32)
        × ((c : ℕ) → c ≢ ctx → heap' c ≡ heap c)
        × (deleted ≡ (if (heap ctx).ref % 2 ^ 32 == 1 then some ctx else none)))

module _ (heap : Heap) (s : HandleStorage) (h ctx : ℕ) (v : IsValid heap s)
    (e : resolve heap s h ≡ some ctx) where
  abbrev pub heap' : Heap
  heap' = write heap ctx (context_release (heap ctx)).0

  abbrev pub s' : HandleStorage
  s' = record s { slot = set s.slot (h % s.slot_size) none; names = remove_names s.names h }

  pub retired_same : SameHandles heap heap'
  retired_same = write_same heap ctx (context_release (heap ctx)).0 refl

  -- The slot of the handle holds the context, whose handle it is.
  resolved : (slot_at s.slot (h % s.slot_size) ≡ some ctx) × ((heap ctx).handle ≡ h)
  unfolding resolve
  resolved = elim (Option-cases (slot_at s.slot (h % s.slot_size))) [
    | inl q ↦ absurd (ground (arith, q))
    | inr (c, q) ↦
        let t : (c ≡ ctx) × ((heap c).handle ≡ h) = (ground (arith, q), ground (arith, q)) in
        (q ∙ ap some t.0, ap (λ x. (heap x).handle) (sym t.0) ∙ t.1)
  ]

  pub slot_at-retired :
      (k : ℕ) → slot_at s'.slot k ≡ (if k == h % s.slot_size then none else slot_at s.slot k)
  slot_at-retired k =
      slot_at-set s.slot (h % s.slot_size) k none
        (omega (arith, v.cells, mod-lt h (slot_size-pos v)))

  pub retired-IsValid : IsValid heap' s'
  retired-IsValid = record {
    exponent = v.exponent;
    power = v.power;
    small = v.small;
    cells = length-set s.slot (h % s.slot_size) none ∙ v.cells;
    hashed = λ i c p.
        let p' : slot_at s.slot i ≡ some c = ground (arith, slot_at-retired i) in
        ap (λ x. x % s.slot_size) (retired_same c) ∙ v.hashed i c p';
    harbor_high = v.harbor_high;
  }

  resolve-retired : resolve heap' s' h ≡ none
  unfolding resolve
  resolve-retired =
      let q : slot_at s'.slot (h % s.slot_size) ≡ none =
        slot_at-retired (h % s.slot_size) ∙ ground arith in
      ground (arith, q)

  resolve-others : (k : ℕ) → k ≢ h → resolve heap' s' k ≡ resolve heap s k
  unfolding resolve
  resolve-others k ne = elim (ℕ_discrete (k % s.slot_size) (h % s.slot_size)) [
    | yes q ↦
        let a : slot_at s'.slot (k % s.slot_size) ≡ none =
          slot_at-retired (k % s.slot_size) ∙ ground arith in
        let b : slot_at s.slot (k % s.slot_size) ≡ some ctx = ap (slot_at s.slot) q ∙ resolved.0 in
        ground (arith, a, b, resolved.1)
    | no q ↦
        let a : slot_at s'.slot (k % s.slot_size) ≡ slot_at s.slot (k % s.slot_size) =
          slot_at-retired (k % s.slot_size) ∙ ground arith in
        elim (Option-cases (slot_at s.slot (k % s.slot_size))) [
          | inl p ↦ ground (arith, a, p)
          | inr (c, p) ↦ ground (arith, a, p, retired_same c)
        ]
  ]

-- `skynet_handle_retire` on a valid storage with a valid name table: the handle and its names
-- resolve to nothing, all others as before, and the context loses one reference, its last being
-- its deletion; for a handle of no context nothing changes.
pub retire-Retires :
    (heap : Heap) (s : HandleStorage) (h : ℕ)
    → IsValid heap s
    → Lookup.IsValid s.names
    → Retires heap s h (retire heap s h)
unfolding retire
retire-Retires heap s h v w = elim (Option-cases (resolve heap s h)) [
  | inl e ↦
      let q : retire heap s h ≡ (none, s, heap) = rw (e, retire) in
      subst (Retires heap s h) (sym q) (inl (e, refl, refl, refl))
  | inr (ctx, e) ↦
      let last = (context_release (heap ctx)).1 in
      let q : retire heap s h
          ≡ (if last then some ctx else none, s' heap s h ctx v e, heap' heap s h ctx v e) =
        rw (e, retire) in
      subst (Retires heap s h) (sym q) (
        inr (
          ctx,
          e,
          resolve-retired heap s h ctx v e,
          resolve-others heap s h ctx v e,
          (findname-remove_names s.names h w).1,
          retired-IsValid heap s h ctx v e,
          ground arith,
          λ c ne. ground arith,
          ground arith,
        ))
]
