-- ===== src/Multicast/Group/Members.antt =====
-- The members of a group in dn/skynet-src/skynet_multicast.c after its queues are combined.
use dn_server.Common.{
  ℕ, ◌+◌, ◌-◌, ◌^◌, ◌≤◌, ◌≡◌, ◌⊎◌, refl, ap, subst, inl, inr, List, [], Option, some, ltb, leb,
  if◌then◌else◌, length, get_or, arith,
}
use dn_server.Multicast.Group.{MulticastGroup, qsort, move_members, combine_leave, combine_queue}
use dn_server.Multicast.Group.Enter.{Merging, Known}
use dn_server.Multicast.Group.Cells.{InCells, Ascends}
use dn_server.Multicast.Group.Merge.{enter_loop-Merges}
use dn_server.Multicast.Group.Sort.{
  InList, IsSorted, IsLocal, qsort-InList, qsort-IsSorted, get_or-InList, InList-InFirst,
  get_or-IsSorted,
}
use dn_server.Multicast.Group.Leave.{Leaving, Member}
use dn_server.Multicast.Group.Remove.{leave_loop-Leaves}
use dn_server.Multicast.Group.Combine.{
  Combined, shifted, total, move_members-Moved, shifted-Ascends, shifted-Member,
}

combine_leave-Combined :
    (group : MulticastGroup) (cells : ℕ → ℕ) (start size : ℕ)
    → Ascends cells start size
    → start ≤ size
    → IsSorted (qsort group.leave_queue.cells)
    → Combined group (InCells cells start size) (combine_leave group cells start size)
unfolding combine_leave
combine_leave-Combined group cells start size asc inside sorted =
    let q = qsort group.leave_queue.cells in
    let m : Leaving q size cells start 0 = record {
      room = omega arith;
      inside = inside;
      kept = λ i j l h k. absurd (omega arith);
      left = asc;
      below = λ j k l h u. absurd (omega arith);
      sorted = sorted;
      passed = λ j h l k. absurd (omega arith);
    } in
    let (cells', old', new', count, e, m', c, w) =
      leave_loop-Leaves (length q + size + 1) q size cells start 0 (size - start) m (omega arith)
        (omega arith) in
    let inside' = m'.inside in
    let rounds : count - new' ≡ size - old' = elim c [
      | inl a ↦ omega (arith, a)
      | inr (a, b) ↦ omega (arith, a, b)
    ] in
    let number : (if leb count new' then new' else count) ≡ total size cells' old' new' m' =
      elim c [ inl a ↦ ground (arith, a, inside') | inr (a, b) ↦ ground (arith, a, b) ] in
    let group' : MulticastGroup = record group {
      leave_queue = record group.leave_queue { cells = [] };
      number = total size cells' old' new' m';
      cells = shifted size cells' old' new' m';
    } in
    (
      group',
      rw (e, rounds, number) refl,
      shifted-Ascends size cells' old' new' m',
      refl,
      refl,
      λ x.
          (let (f, g) = shifted-Member size cells' old' new' m' x in
            let (f', g') = w x in
            (
              (λ k. (let (member, out) = f' (f k) in (only_left x member, out))),
              (λ k out. g (g' (inr k) out)),
            )),
    )
  where
    only_left : (x : ℕ) → Member size cells start 0 x → InCells cells start size x
    only_left x (inl (i, l, h, e)) = absurd (omega arith)
    only_left x (inr c) = c

-- The state before the loops.
Merging-start :
    (base : ℕ) (group : MulticastGroup)
    → base + 2 ^ 24 ≤ 2 ^ 32
    → IsLocal base group.enter_queue.cells
    → Ascends group.cells 0 group.number
    → Merging
        (qsort group.enter_queue.cells)
        (group.number + length (qsort group.enter_queue.cells))
        group.cells
        (length (qsort group.enter_queue.cells))
        group.number
        (group.number + length (qsort group.enter_queue.cells))
        0
Merging-start base group word local asc =
    let q = qsort group.enter_queue.cells in
    let sorted = qsort-IsSorted base group.enter_queue.cells word local in
    record {
      room = omega arith;
      inside = omega arith;
      low = asc;
      high = λ i j l h k. absurd (omega arith);
      below = λ j k l h u. absurd (omega arith);
      sorted = get_or-IsSorted q sorted;
      positive = λ k h.
          (let (pos, _, _) =
              local (get_or q k 0)
                ((qsort-InList (get_or q k 0) group.enter_queue.cells).0 (get_or-InList q k h)) in
            pos);
      enters = λ k j h l u. absurd (omega arith);
      met = inl refl;
    }

-- The members of a group: the members before with those that entered, without those that left.
abbrev pub CombinesTo : MulticastGroup → Option MulticastGroup → Type 0
CombinesTo group r =
    (group' : MulticastGroup) × (r ≡ some group')
    × Ascends group'.cells 0 group'.number
    × (group'.enter_queue.cells ≡ [])
    × (group'.leave_queue.cells ≡ [])
    × ((x : ℕ)
        → (InCells group'.cells 0 group'.number x
            → (InCells group.cells 0 group.number x ⊎ InList x group.enter_queue.cells)
              × (InList x group.leave_queue.cells → ⊥))
          × (InCells group.cells 0 group.number x ⊎ InList x group.enter_queue.cells
              → (InList x group.leave_queue.cells → ⊥)
              → InCells group'.cells 0 group'.number x))

-- Combining the queues of a group whose members ascend, where the handles in the queues are of one
-- harbor and not 0: it ends, the queues are empty, and the members ascend and are the members
-- before and those that entered, without those that left.
pub combine_queue-CombinesTo :
    (base : ℕ) (group : MulticastGroup)
    → base + 2 ^ 24 ≤ 2 ^ 32
    → IsLocal base group.enter_queue.cells
    → IsLocal base group.leave_queue.cells
    → Ascends group.cells 0 group.number
    → CombinesTo group (combine_queue group)
unfolding combine_queue
combine_queue-CombinesTo base group word entering leaving asc =
    let q = qsort group.enter_queue.cells in
    let size = group.number + length q in
    let (cells, old, new, last, e, m, same) =
      enter_loop-Merges (length q + group.number + 1) q size group.cells (length q) group.number
        size 0 (Merging-start base group word entering asc) (omega arith) in
    let moved = move_members cells old new in
    let (inside, high, members) =
      move_members-Moved size old new cells (omega (arith, m.room)) m.inside m.low m.high m.below in
    let group₁ : MulticastGroup = record group {
      enter_queue = record group.enter_queue { cells = [] };
      cap = if ltb group.cap size then size else group.cap;
    } in
    let (group', e', asc', entered, none_left, final) =
      combine_leave-Combined group₁ (moved.0) (moved.1) size high inside
        (qsort-IsSorted base group.leave_queue.cells word leaving) in
    (
      group',
      rw (e, e') refl,
      asc',
      ap (λ a. a.cells) entered,
      none_left,
      λ x.
          (let (f, g) = same x in
            let (f₁, g₁) = members x in
            let (f₂, g₂) = final x in
            let (into, out_of) = qsort-InList x group.enter_queue.cells in
            let (into', out_of') = qsort-InList x group.leave_queue.cells in
            (
              (λ k.
                  (let (member, out) = f₂ k in
                    (before_any x (g (inr (f₁ member))), λ h. out (out_of' h)))),
              (λ k out.
                  g₂
                    (g₁ (
                      only_members q size old new cells x (
                        f (elim k [
                          | inl c ↦ inr (inl c)
                          | inr h ↦ inl (InList-InFirst q x (out_of h))
                        ]))))
                    (λ h. out (into' h))),
            )),
    )
  where
    before_any :
        (x : ℕ)
        → Known
            (qsort group.enter_queue.cells)
            (group.number + length (qsort group.enter_queue.cells))
            group.cells
            (length (qsort group.enter_queue.cells))
            group.number
            (group.number + length (qsort group.enter_queue.cells))
            x
        → InCells group.cells 0 group.number x ⊎ InList x group.enter_queue.cells
    before_any x (inl (k, lt, e)) = inr (
        (qsort-InList x group.enter_queue.cells).0 (
          subst (λ y. InList y (qsort group.enter_queue.cells)) e
            (get_or-InList (qsort group.enter_queue.cells) k lt)))
    before_any x (inr (inl c)) = inl c
    before_any x (inr (inr (k, l, lt, e))) = absurd (omega arith)

    only_members :
        (q : List ℕ) (size old new : ℕ) (cells : ℕ → ℕ) (x : ℕ)
        → Known q size cells 0 old new x
        → InCells cells 0 old x ⊎ InCells cells new size x
    only_members q size old new cells x (inl (k, lt, e)) = absurd (omega arith)
    only_members q size old new cells x (inr c) = c
