-- ===== src/Handle/Register.antt =====
-- `skynet_handle_register`: a new context gets a handle of its own.
use native.Mathlib.Nat.{zero-mod}
use dn_server.Common.{
  ℕ, suc, ◌+◌, ◌-◌, ◌*◌, ◌%◌, ◌≤◌, ◌<◌, ◌≡◌, ◌≢◌, refl, sym, ap, ◌∙◌, subst, inl, inr, true, none,
  some, ltb, leb, arith, Option-cases, Bool-cases, ltb→lt, ltb→ge,
}
use dn_server.Context.{context_init, Heap}
use dn_server.Handle.{
  write, HandleStorage, handle_bits, slot_at, find_slot, resolve, grow, take_slot, Registered,
  registered, aborted, register_loop, register,
}
use dn_server.Handle.Slots.{IsValid, find_slot-some, find_slot-full}
use dn_server.Handle.Rehash.{Grown, grow-Grown}
use dn_server.Handle.Take.{IsNew, taken-IsValid, resolve-new, resolve-old, resolve-kept}

-- What a registration does: the new handle, unused before, resolves to the context, all others
-- resolve as before, and the storage is valid. It aborts only where 2 ^ 24 slots are taken.
abbrev pub Registers : Heap → HandleStorage → ℕ → Registered → Type 0
Registers heap s ctx (registered (h, s', heap')) =
    (resolve heap s h ≡ none)
    × (resolve heap' s' h ≡ some ctx)
    × ((k : ℕ) → k ≢ h → resolve heap' s' k ≡ resolve heap s k)
    × IsValid heap' s'
    × (s'.harbor ≡ s.harbor)
    × (h % handle_bits + s.harbor ≡ h)
    × (heap' ≡ write heap ctx (context_init (heap ctx) h))
Registers heap s ctx aborted =
    (handle_bits ≤ s.slot_size)
    × ((i : ℕ) → i < s.slot_size → (c : ℕ) × (slot_at s.slot i ≡ some c))
Registers heap s ctx Registered.out_of_fuel = ⊥

take-Registers :
    (heap : Heap) (s : HandleStorage) (ctx h : ℕ)
    → IsValid heap s
    → IsNew s ctx
    → find_slot s s.slot_size 0 ≡ some h
    → Registers heap s ctx (registered (take_slot heap s ctx h))
take-Registers heap s ctx h v new e =
    let (free, small) = find_slot-some s s.slot_size 0 e in
    (
      resolve-old heap s ctx h v new free,
      resolve-new heap s ctx h v new free,
      resolve-kept heap s ctx h v new free,
      taken-IsValid heap s ctx h v new free,
      refl,
      (let d = v.harbor_high in omega arith),
      refl,
    )

-- The three ways of a round.
register_loop-found :
    (fuel : ℕ) (heap : Heap) (s : HandleStorage) (ctx h : ℕ)
    → find_slot s s.slot_size 0 ≡ some h
    → register_loop (suc fuel) heap s ctx ≡ registered (take_slot heap s ctx h)
unfolding register_loop
register_loop-found fuel heap s ctx h e = rw (e, register_loop)

register_loop-grown :
    (fuel : ℕ) (heap : Heap) (s t : HandleStorage) (ctx : ℕ)
    → find_slot s s.slot_size 0 ≡ none
    → grow heap s ≡ some t
    → register_loop (suc fuel) heap s ctx ≡ register_loop fuel heap t ctx
unfolding register_loop
register_loop-grown fuel heap s t ctx e g = ground (arith, e, g)

register_loop-aborted :
    (fuel : ℕ) (heap : Heap) (s : HandleStorage) (ctx : ℕ)
    → find_slot s s.slot_size 0 ≡ none
    → grow heap s ≡ none
    → register_loop (suc fuel) heap s ctx ≡ aborted
unfolding register_loop
register_loop-aborted fuel heap s ctx e g = ground (arith, e, g)

-- The second round, on the grown storage.
second_round :
    (heap : Heap) (s t : HandleStorage) (ctx : ℕ)
    → IsNew s ctx
    → Grown heap s t
    → Registers heap s ctx (register_loop 1 heap t ctx)
second_round heap s t ctx new g = elim (Option-cases (find_slot t t.slot_size 0)) [
  | inl e ↦ absurd (g.free e)
  | inr (h, e) ↦
      (let (a, b, c, d, f, k, w) = take-Registers heap t ctx h g.valid (g.held ctx new) e in
        subst (Registers heap s ctx) (sym (register_loop-found 0 heap t ctx h e)) (
          sym (g.same (h + t.harbor)) ∙ a,
          b,
          λ k ne. c k ne ∙ g.same k,
          d,
          f ∙ g.kept.0,
          ap (λ x. (h + t.harbor) % handle_bits + x) (sym g.kept.0) ∙ k,
          w,
        ))
]

-- `skynet_handle_register` of a context that stands in no slot of a valid storage ends: it gives
-- a handle that resolved to nothing and now resolves to the context, with the harbor in its high
-- bits; every other handle resolves as before, and the storage stays valid. It aborts only where
-- 2 ^ 24 slots are all taken.
pub register-Registers :
    (heap : Heap) (s : HandleStorage) (ctx : ℕ)
    → IsValid heap s
    → IsNew s ctx
    → Registers heap s ctx (register heap s ctx)
unfolding register
register-Registers heap s ctx v new = elim (Option-cases (find_slot s s.slot_size 0)) [
  | inr (h, e) ↦
      subst (Registers heap s ctx) (sym (register_loop-found 1 heap s ctx h e))
        (take-Registers heap s ctx h v new e)
  | inl e ↦ elim (Bool-cases (ltb s.slot_size handle_bits)) [
    | inl room ↦
        (let (t, r, g) = grow-Grown heap s v e (ltb→lt s.slot_size handle_bits room) in
          subst (Registers heap s ctx) (sym (register_loop-grown 1 heap s t ctx e r))
            (second_round heap s t ctx new g))
    | inr full ↦
        let l : leb handle_bits (s.slot_size * 2 - 1) ≡ true = ground arith in
        let r : grow heap s ≡ none = unfold grow in rw l in
        subst (Registers heap s ctx) (sym (register_loop-aborted 1 heap s ctx e r))
          (ltb→ge s.slot_size handle_bits full, λ i. find_slot-full heap s i v e)
  ]
]

find_slot-zero :
    (s : HandleStorage)
    → 0 < s.slot_size
    → s.handle_index % handle_bits ≡ 0
    → slot_at s.slot 0 ≡ none
    → find_slot s s.slot_size 0 ≡ some 0
unfolding find_slot
find_slot-zero s pos round free =
    let e : s.slot_size ≡ suc (s.slot_size - 1) = omega arith in
    let h : (0 + s.handle_index) % handle_bits ≡ 0 = omega arith in
    let z : 0 % s.slot_size ≡ 0 = zero-mod s.slot_size in
    let f : slot_at s.slot ((0 + s.handle_index) % handle_bits % s.slot_size) ≡ none =
      ap (λ k. slot_at s.slot (k % s.slot_size)) h ∙ ap (slot_at s.slot) z ∙ free in
    ap (λ n. find_slot s n 0) e ∙ rw (f, find_slot) (ap some h)

-- A handle is 0 on harbor 0 when the index has come round to a multiple of 2 ^ 24 and slot 0 is
-- free, though `skynet_handle_init` reserves 0.
register-zero :
    (heap : Heap) (s : HandleStorage) (ctx : ℕ)
    → 0 < s.slot_size
    → s.handle_index % handle_bits ≡ 0
    → slot_at s.slot 0 ≡ none
    → s.harbor ≡ 0
    → (r : HandleStorage × Heap) × (register heap s ctx ≡ registered (0, r.0, r.1))
unfolding register
register-zero heap s ctx pos round free local =
    let taken = take_slot heap s ctx 0 in
    let f : find_slot s s.slot_size 0 ≡ some 0 = find_slot-zero s pos round free in
    let z : 0 + s.harbor ≡ 0 = omega arith in
    (
      (taken.1, taken.2),
      register_loop-found 1 heap s ctx 0 f ∙ ap (λ k. registered (k, taken.1, taken.2)) z,
    )
