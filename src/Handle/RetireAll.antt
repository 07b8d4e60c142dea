-- ===== src/Handle/RetireAll.antt =====
-- `skynet_handle_retireall`: after it no handle is left.
use dn_server.Common.{
  ℕ, zero, suc, ◌+◌, ◌%◌, ◌<◌, ◌≡◌, ◌≢◌, refl, sym, ap, ◌∙◌, inl, inr, List, [], Option, none, some,
  ◌==◌, if◌then◌else◌, arith, Option-cases, Bool-cases, eq→==, ne→==, ==→eq,
}
use native.Mathlib.Nat.{mod-lt}
use dn_server.Context.{Heap}
use dn_server.Handle.{HandleStorage, slot_at, resolve, retire, retire_slots, retireall}
use dn_server.Handle.Slots.{IsValid, slot_size-pos}
use dn_server.Handle.Retire.{heap', s'}
use dn_server.Handle.Clear.{
  stands_in_slot, one_less, below, retire-Step, home-lt, stands_in_slot-none, stands_in_slot-some,
  Clears, Step,
}

empty-Clears :
    (heap : Heap) (s : HandleStorage)
    → IsValid heap s
    → ((k : ℕ) → k < s.slot_size → slot_at s.slot k ≡ none)
    → Clears heap s heap s
empty-Clears heap s v clear = record {
  valid = v;
  same_size = refl;
  clear = clear;
  refs = λ c. rw (stands_in_slot-none heap s c _ refl (clear _ (home-lt heap s c v))) refl;
}

-- The context of a step has its reference less already; all others are where they were.
stands_in_slot-step :
    (heap : Heap) (s : HandleStorage) (i ctx : ℕ) (heap₁ : Heap) (s₁ : HandleStorage) (c : ℕ)
    → IsValid heap s
    → slot_at s.slot i ≡ some ctx
    → Step heap s i ctx heap₁ s₁
    → (if stands_in_slot heap₁ s₁ c then one_less (heap₁ c).ref else (heap₁ c).ref)
      ≡ (if stands_in_slot heap s c then one_less (heap c).ref else (heap c).ref)
stands_in_slot-step heap s i ctx heap₁ s₁ c v at step =
    let home₁ : (heap₁ c).handle % s₁.slot_size ≡ (heap c).handle % s.slot_size =
      cc (step.handles c, step.same_size) in
    elim (Bool-cases (c == ctx)) [
      | inl e ↦
          let same : c ≡ ctx = ==→eq c ctx e in
          let home : (heap c).handle % s.slot_size ≡ i = rw same (v.hashed i ctx at) in
          let now : slot_at s₁.slot i ≡ none = step.slots i ∙ rw (eq→== i i refl) refl in
          rw
            (
              stands_in_slot-none heap₁ s₁ c i (home₁ ∙ home) now,
              stands_in_slot-some heap s c ctx i home at,
            )
            (rw (same, eq→== ctx ctx refl) step.taken)
      | inr ne ↦
          let other : c ≢ ctx = λ e. absurd (ground arith) in
          let k = (heap c).handle % s.slot_size in
          rw (step.others c other) (elim (Bool-cases (k == i)) [
            | inl e ↦
                let home : k ≡ i = ==→eq k i e in
                let now : slot_at s₁.slot i ≡ none = step.slots i ∙ rw (eq→== i i refl) refl in
                rw
                  (
                    stands_in_slot-none heap₁ s₁ c i (home₁ ∙ home) now,
                    stands_in_slot-some heap s c ctx i home at,
                    ne→== ctx c (λ q. other (sym q)),
                  )
                  refl
            | inr e ↦
                let now : slot_at s₁.slot k ≡ slot_at s.slot k = step.slots k ∙ rw e refl in
                elim (Option-cases (slot_at s.slot k)) [
                  | inl z ↦
                      rw
                        (
                          stands_in_slot-none heap₁ s₁ c k home₁ (now ∙ z),
                          stands_in_slot-none heap s c k refl z,
                        )
                        refl
                  | inr (d, z) ↦
                      rw
                        (
                          stands_in_slot-some heap₁ s₁ c d k home₁ (now ∙ z),
                          stands_in_slot-some heap s c d k refl z,
                        )
                        refl
                ]
          ])
    ]

step-Clears :
    (heap : Heap) (s : HandleStorage) (i ctx : ℕ) (heap₁ heap₂ : Heap) (s₁ s₂ : HandleStorage)
    → IsValid heap s
    → slot_at s.slot i ≡ some ctx
    → Step heap s i ctx heap₁ s₁
    → Clears heap₁ s₁ heap₂ s₂
    → Clears heap s heap₂ s₂
step-Clears heap s i ctx heap₁ heap₂ s₁ s₂ v at step rest = record {
  valid = rest.valid;
  same_size = rest.same_size ∙ step.same_size;
  clear = λ k h. rest.clear k (omega (arith, step.same_size));
  refs = λ c. rest.refs c ∙ stands_in_slot-step heap s i ctx heap₁ s₁ c v at step;
}

retire_slots-skip :
    (rounds i : ℕ) (heap : Heap) (s : HandleStorage)
    → slot_at s.slot i ≡ none
    → retire_slots (suc rounds) i heap s ≡ retire_slots rounds (i + 1) heap s
unfolding retire_slots
retire_slots-skip rounds i heap s e = rw (retire_slots, e) refl

retire_slots-retire :
    (rounds i ctx : ℕ) (heap : Heap) (s : HandleStorage)
    → slot_at s.slot i ≡ some ctx
    → let r = retire heap s (heap ctx).handle in
      let rest = retire_slots rounds (i + 1) (r.2) (r.1) in
      ((retire_slots (suc rounds) i heap s).2 ≡ rest.2)
      × ((retire_slots (suc rounds) i heap s).3 ≡ rest.3)
unfolding retire_slots
retire_slots-retire rounds i ctx heap s e = rw (retire_slots, e) (refl, refl)

retire_slots-Clears :
    (rounds i : ℕ) (heap : Heap) (s : HandleStorage)
    → IsValid heap s
    → i + rounds ≡ s.slot_size
    → ((k : ℕ) → k < i → slot_at s.slot k ≡ none)
    → let r = retire_slots rounds i heap s in Clears heap s (r.3) (r.2)
retire_slots-Clears zero i heap s v all clear =
    unfold retire_slots in empty-Clears heap s v (λ k h. clear k (omega arith))
retire_slots-Clears (suc rounds) i heap s v all clear = elim (Option-cases (slot_at s.slot i)) [
  | inl e ↦ rw (retire_slots-skip rounds i heap s e) (
      retire_slots-Clears rounds (i + 1) heap s v (omega arith) (λ k h. below k i s.slot h clear e))
  | inr (ctx, e) ↦
      let step = retire-Step heap s i ctx v e in
      let (_, s₁, heap₁) = retire heap s (heap ctx).handle in
      let (at_storage, at_heap) = retire_slots-retire rounds i ctx heap s e in
      rw (at_storage, at_heap)
        (step-Clears heap s i ctx heap₁ _ s₁ _ v e step (
          retire_slots-Clears rounds (i + 1) heap₁ s₁ step.valid (omega (arith, step.same_size))
            (λ k h.
              below k i s₁.slot h
                (λ j l.
                  step.slots j ∙ rw (ne→== j i (λ q. absurd (omega (arith, q, l)))) (clear j l))
                (step.slots i ∙ rw (eq→== i i refl) refl))))
]

retire_slots-none :
    (rounds i : ℕ) (heap : Heap) (s : HandleStorage)
    → ((k : ℕ) → k < i + rounds → slot_at s.slot k ≡ none)
    → retire_slots rounds i heap s ≡ (0, [], s, heap)
retire_slots-none zero i heap s clear = unfold retire_slots in refl
retire_slots-none (suc rounds) i heap s clear =
    retire_slots-skip rounds i heap s (clear i (omega arith))
    ∙ retire_slots-none rounds (i + 1) heap s (λ k h. clear k (omega arith))

-- What `skynet_handle_retireall` leaves.
pub record RetiresAll (heap : Heap) (s : HandleStorage) (heap' : Heap) (s' : HandleStorage)
    : Type 0 where
  pub valid : IsValid heap' s'
  pub gone : (h : ℕ) → resolve heap' s' h ≡ none
  pub refs :
      (c : ℕ)
      → (heap' c).ref ≡ (if stands_in_slot heap s c then one_less (heap c).ref else (heap c).ref)

-- A second round meets no context.
last_round :
    (n : ℕ) (next : Option (HandleStorage × Heap)) (r : HandleStorage × Heap)
    → next ≡ some r
    → elim n [ zero ↦ some r | suc _ ↦ next ] ≡ some r
last_round zero next r e = refl
last_round (suc n) next r e = e

retireall-empty :
    (fuel : ℕ) (heap : Heap) (s : HandleStorage)
    → ((k : ℕ) → k < s.slot_size → slot_at s.slot k ≡ none)
    → retireall (suc fuel) heap s ≡ some (s, heap)
unfolding retireall
retireall-empty fuel heap s clear =
    ap
      (λ (p : ℕ × List ℕ × HandleStorage × Heap).
        elim (p.0) as (λ n. Option (HandleStorage × Heap)) [
          | zero ↦ some (p.2, p.3)
          | suc _ ↦ retireall fuel (p.3) (p.2)
        ])
      (retire_slots-none s.slot_size 0 heap s (λ k h. clear k (omega arith)))

resolve-clear :
    (heap : Heap) (s : HandleStorage) (h : ℕ)
    → slot_at s.slot (h % s.slot_size) ≡ none
    → resolve heap s h ≡ none
unfolding resolve
resolve-clear heap s h e = rw (resolve, e) refl

-- `skynet_handle_retireall` on a valid storage, alone, ends in its second round at the latest: no
-- handle resolves to a context, and exactly the contexts that had one have lost a reference.
pub retireall-RetiresAll :
    (fuel : ℕ) (heap : Heap) (s : HandleStorage)
    → IsValid heap s
    → (s' : HandleStorage) × (heap' : Heap) × (retireall (suc (suc fuel)) heap s ≡ some (s', heap'))
      × RetiresAll heap s heap' s'
unfolding retireall
retireall-RetiresAll fuel heap s v =
    let clears =
      retire_slots-Clears s.slot_size 0 heap s v (omega arith) (λ k h. absurd (omega arith)) in
    let (n, _, s', heap') = retire_slots s.slot_size 0 heap s in
    let clear =
      λ (k : ℕ) (h : k < s'.slot_size). clears.clear k (omega (arith, clears.same_size)) in
    (
      s',
      heap',
      last_round n (retireall (suc fuel) heap' s') (s', heap')
          (retireall-empty fuel heap' s' clear),
      record {
        valid = clears.valid;
        gone = λ h. resolve-clear heap' s' h (clear _ (mod-lt h (slot_size-pos clears.valid)));
        refs = clears.refs;
      },
    )
