-- ===== src/Handle/Clear.antt =====
-- One retirement of the loop of `skynet_handle_retireall`.
use dn_server.Common.{
  ℕ, ◌+◌, ◌-◌, ◌%◌, ◌^◌, ◌<◌, ◌≡◌, ◌≢◌, refl, sym, ap, ◌∙◌, inl, inr, Bool, false, List, Option,
  none, some, ◌==◌, if◌then◌else◌, arith, Bool-cases, eq→==, ==→eq,
}
use native.Mathlib.Nat.{mod-lt}
use dn_server.Context.{Heap}
use dn_server.Handle.{HandleStorage, slot_at, resolve, retire}
use dn_server.Handle.Slots.{IsValid, slot_size-pos}
use dn_server.Handle.Retire.{SameHandles, slot_at-retired, retired-IsValid, retired_same}

-- Whether a context stands in the slot of its handle.
abbrev pub stands_in_slot : Heap → HandleStorage → ℕ → Bool
stands_in_slot heap s c = elim (slot_at s.slot ((heap c).handle % s.slot_size)) [
  | none ↦ false
  | some d ↦ d == c
]

abbrev pub one_less : ℕ → ℕ
one_less ref = (ref + 2 ^ 32 - 1) % 2 ^ 32

-- From slot `i` on the slots are empty, and each context that stood in one has lost a reference.
pub record Clears (heap : Heap) (s : HandleStorage) (heap₂ : Heap) (s₂ : HandleStorage)
    : Type 0 where
  pub valid : IsValid heap₂ s₂
  pub same_size : s₂.slot_size ≡ s.slot_size
  pub clear : (k : ℕ) → k < s.slot_size → slot_at s₂.slot k ≡ none
  pub refs :
      (c : ℕ)
      → (heap₂ c).ref ≡ (if stands_in_slot heap s c then one_less (heap c).ref else (heap c).ref)

pub below :
    (k i : ℕ) (slot : List (Option ℕ))
    → k < i + 1
    → ((j : ℕ) → j < i → slot_at slot j ≡ none)
    → slot_at slot i ≡ none
    → slot_at slot k ≡ none
below k i slot h clear e = elim (Bool-cases (k == i)) [
  | inl q ↦ ap (slot_at slot) (==→eq k i q) ∙ e
  | inr q ↦ clear k (ground arith)
]

-- One retirement of the loop.
pub record Step (heap : Heap) (s : HandleStorage) (i ctx : ℕ) (heap₁ : Heap) (s₁ : HandleStorage)
    : Type 0 where
  pub valid : IsValid heap₁ s₁
  pub same_size : s₁.slot_size ≡ s.slot_size
  pub slots : (k : ℕ) → slot_at s₁.slot k ≡ (if k == i then none else slot_at s.slot k)
  pub handles : SameHandles heap heap₁
  pub taken : (heap₁ ctx).ref ≡ one_less (heap ctx).ref
  pub others : (c : ℕ) → c ≢ ctx → heap₁ c ≡ heap c

resolve-slot :
    (heap : Heap) (s : HandleStorage) (i ctx : ℕ)
    → IsValid heap s
    → slot_at s.slot i ≡ some ctx
    → ((heap ctx).handle % s.slot_size ≡ i) × (resolve heap s (heap ctx).handle ≡ some ctx)
unfolding resolve
resolve-slot heap s i ctx v e =
    let home = v.hashed i ctx e in
    (home, rw (resolve, home, e, eq→== (heap ctx).handle (heap ctx).handle refl) refl)

pub retire-Step :
    (heap : Heap) (s : HandleStorage) (i ctx : ℕ)
    → IsValid heap s
    → slot_at s.slot i ≡ some ctx
    → let r = retire heap s (heap ctx).handle in Step heap s i ctx (r.2) (r.1)
unfolding retire
retire-Step heap s i ctx v at =
    let h = (heap ctx).handle in
    let (home, e) = resolve-slot heap s i ctx v at in
    rw (e, retire)
      (record {
        valid = retired-IsValid heap s h ctx v e;
        same_size = refl;
        slots = λ k. rw (sym home) (slot_at-retired heap s h ctx v e k);
        handles = retired_same heap s h ctx v e;
        taken = ground arith;
        others = λ c ne. ground arith;
      })

pub home-lt :
    (heap : Heap) (s : HandleStorage) (c : ℕ)
    → IsValid heap s
    → (heap c).handle % s.slot_size < s.slot_size
home-lt heap s c v = mod-lt (heap c).handle (slot_size-pos v)

pub stands_in_slot-none :
    (heap : Heap) (s : HandleStorage) (c i : ℕ)
    → (heap c).handle % s.slot_size ≡ i
    → slot_at s.slot i ≡ none
    → stands_in_slot heap s c ≡ false
stands_in_slot-none heap s c i home e = rw (stands_in_slot, home, e) refl

pub stands_in_slot-some :
    (heap : Heap) (s : HandleStorage) (c d i : ℕ)
    → (heap c).handle % s.slot_size ≡ i
    → slot_at s.slot i ≡ some d
    → stands_in_slot heap s c ≡ (d == c)
stands_in_slot-some heap s c d i home e = rw (stands_in_slot, home, e) refl
