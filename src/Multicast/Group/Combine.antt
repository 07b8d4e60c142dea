-- ===== src/Multicast/Group/Combine.antt =====
-- `combine_queue` in dn/skynet-src/skynet_multicast.c as a whole.
use dn_server.Common.{
  ℕ, zero, suc, ◌+◌, ◌-◌, ◌≤◌, ◌<◌, ◌≡◌, ◌⊎◌, refl, sym, ap, subst, ◌∙◌, inl, inr, [], Option, some,
  ltb, ◌==◌, Bool-cases, ==→eq, arith,
}
use dn_server.Multicast.Group.{MulticastGroup, put, qsort, move_members, shift_members}
use dn_server.Multicast.Group.Enter.{
  put_below, put-Ascends, put-InCells, InCells-put, InCells-below, below-InCells, put_above,
}
use dn_server.Multicast.Group.Cells.{InCells, Ascends, put_self}
use dn_server.Multicast.Group.Sort.{InList}
use dn_server.Multicast.Group.Leave.{Leaving, Member}

-- The members that are left join those at the end of the array.
abbrev pub Moved : ℕ → (ℕ → ℕ) → ℕ → ℕ → (ℕ → ℕ) × ℕ → Type 0
Moved size cells old new r =
    (r.1 ≤ size)
    × Ascends (r.0) (r.1) size
    × ((x : ℕ)
        → (InCells (r.0) (r.1) size x → InCells cells 0 old x ⊎ InCells cells new size x)
          × (InCells cells 0 old x ⊎ InCells cells new size x → InCells (r.0) (r.1) size x))

pub move_members-Moved :
    (size old new : ℕ) (cells : ℕ → ℕ)
    → old ≤ new
    → new ≤ size
    → Ascends cells 0 old
    → Ascends cells new size
    → ((j k : ℕ) → j < old → new ≤ k → k < size → cells j < cells k)
    → Moved size cells old new (move_members cells old new)
unfolding move_members
move_members-Moved size zero new cells l h low high below = (
  h,
  high,
  λ x. ((λ k. inr k), (λ k. elim k [ inl (i, _, lt, _) ↦ absurd (omega arith) | inr c ↦ c ])),
)
move_members-Moved size (suc o) zero cells l h low high below = absurd (omega arith)
move_members-Moved size (suc o) (suc n) cells l h low high below =
    let one : suc n - 1 ≡ n = omega arith in
    let v = cells o in
    let least : (k : ℕ) → n < k → k < size → v < cells k =
      λ k a b. below o k (omega arith) (omega arith) b in
    let (h', high', same) =
      move_members-Moved size o n (put cells n v) (omega arith) (omega arith)
        (λ i j a b c. omega (
          arith,
          put_below cells n v i (omega arith),
          put_below cells n v j (omega arith),
          low i j a b (omega arith),
        ))
        (put-Ascends cells n v size high least)
        (λ j k a b c. elim (Bool-cases (k == n)) [
          | inl e ↦
              subst (λ i. put cells n v j < put cells n v i) (sym (==→eq k n e))
                (omega (
                  arith,
                  put_self cells n v,
                  put_below cells n v j (omega arith),
                  low j o (omega arith) a (omega arith),
                ))
          | inr ne ↦ omega (
            arith,
            put_above cells n v k (ground arith),
            put_below cells n v j (omega arith),
            below j k (omega arith) (ground arith) c,
          )
        ]) in
    let e : move_members (put cells (suc n - 1) v) o (suc n - 1)
        ≡ move_members (put cells n v) o n =
      ap (λ k. move_members (put cells k v) o k) one in
    subst (Moved size cells (suc o) (suc n)) (sym e) (
      h',
      high',
      λ x.
          (let (f, g) = same x in
            (
              (λ k. elim (f k) [
                | inl c ↦
                    (let (i, a, b, e) = InCells-below cells n v o x (omega arith) c in
                      inl (i, a, omega arith, e))
                | inr c ↦ elim (InCells-put cells n v size x c) [
                  | inl e ↦ inl (o, omega arith, omega arith, e)
                  | inr c' ↦ inr c'
                ]
              ]),
              (λ k. elim k [
                | inl (i, a, b, e) ↦ elim (Bool-cases (i == o)) [
                  | inl q ↦ g (
                      inr (
                        put-InCells cells n v size x (omega arith)
                          (inl (ap cells (sym (==→eq i o q)) ∙ e))))
                  | inr nq ↦
                      g (inl (below-InCells cells n v o x (omega arith) (i, a, ground arith, e)))
                ]
                | inr c ↦ g (inr (put-InCells cells n v size x (omega arith) (inr c)))
              ]),
            )),
    )

-- The last loop moves the rest of the members to those that are kept.
shift_members-moves :
    (rounds : ℕ) (cells : ℕ → ℕ) (old new : ℕ)
    → new ≤ old
    → ((i : ℕ) → i < new → shift_members rounds cells old new i ≡ cells i)
      × ((k : ℕ) → k < rounds → shift_members rounds cells old new (new + k) ≡ cells (old + k))
unfolding shift_members
shift_members-moves zero cells old new h = ((λ i l. refl), (λ k l. absurd (omega arith)))
shift_members-moves (suc rounds) cells old new h =
    let cells₁ = put cells new (cells old) in
    let (same, moved) = shift_members-moves rounds cells₁ (old + 1) (new + 1) (omega arith) in
    (
      (λ i l. same i (omega arith) ∙ put_below cells new (cells old) i l),
      (λ k l. elim (Bool-cases (k == 0)) [
        | inl z ↦
            let z' = ==→eq k 0 z in
            ap (λ i. shift_members rounds cells₁ (old + 1) (new + 1) i) (omega (arith, z'))
            ∙ same new (omega arith)
            ∙ put_self cells new (cells old)
            ∙ ap cells (omega (arith, z'))
        | inr nz ↦
            ap (λ i. shift_members rounds cells₁ (old + 1) (new + 1) i) (ground arith)
            ∙ moved (k - 1) (ground arith)
            ∙ put_above cells new (cells old) (old + 1 + (k - 1)) (omega arith)
            ∙ ap cells (ground arith)
      ]),
    )

-- The members that were there before, without those that leave.
abbrev pub Combined : MulticastGroup → (ℕ → Type 0) → Option MulticastGroup → Type 0
Combined group before r =
    (group' : MulticastGroup) × (r ≡ some group')
    × Ascends group'.cells 0 group'.number
    × (group'.enter_queue ≡ group.enter_queue)
    × (group'.leave_queue.cells ≡ [])
    × ((x : ℕ)
        → (InCells group'.cells 0 group'.number x
            → before x × (InList x (qsort group.leave_queue.cells) → ⊥))
          × (before x
              → (InList x (qsort group.leave_queue.cells) → ⊥)
              → InCells group'.cells 0 group'.number x))

module _ (size : ℕ) (cells : ℕ → ℕ) (old new : ℕ) (m : Leaving [] size cells old new) where
  abbrev pub shifted : ℕ → ℕ
  shifted = shift_members (size - old) cells old new

  abbrev pub total : ℕ
  total = new + (size - old)

  kept_same : (i : ℕ) → i < new → shifted i ≡ cells i
  kept_same i h = (shift_members-moves (size - old) cells old new m.room).0 i h

  rest_moved : (i : ℕ) → new ≤ i → i < total → shifted i ≡ cells (old + (i - new))
  rest_moved i l h =
      ap (λ j. shifted j) (omega arith)
      ∙ (shift_members-moves (size - old) cells old new m.room).1 (i - new) (omega arith)

  pub shifted-Ascends : Ascends shifted 0 total
  shifted-Ascends i j l h k = elim (Bool-cases (ltb j new)) [
    | inl low ↦ omega (
      arith,
      kept_same i (ground arith),
      kept_same j (ground arith),
      m.kept i j l h (ground arith),
    )
    | inr high ↦
        let r = rest_moved j (ground arith) k in
        let inside = m.inside in
        elim (Bool-cases (ltb i new)) [
          | inl low ↦ omega (
            arith,
            kept_same i (ground arith),
            r,
            m.below i (old + (j - new)) (ground arith) (omega arith) (ground (arith, inside)),
          )
          | inr high' ↦ omega (
            arith,
            rest_moved i (ground arith) (omega arith),
            r,
            m.left (old + (i - new)) (old + (j - new)) (omega arith) (ground arith)
                (ground (arith, inside)),
          )
        ]
  ]

  pub shifted-Member :
      (x : ℕ)
      → (InCells shifted 0 total x → Member size cells old new x)
        × (Member size cells old new x → InCells shifted 0 total x)
  shifted-Member x =
      let inside = m.inside in
      (
        (λ c.
            (let (i, l, h, e) = c in
              elim (Bool-cases (ltb i new)) [
                | inl low ↦ inl (i, l, ground arith, sym (kept_same i (ground arith)) ∙ e)
                | inr high ↦ inr (
                  old + (i - new),
                  omega arith,
                  ground (arith, inside),
                  sym (rest_moved i (ground arith) h) ∙ e,
                )
              ])),
        (λ k. elim k [
          | inl (i, l, h, e) ↦ in_cell i (omega arith) (kept_same i h ∙ e)
          | inr (i, l, h, e) ↦ in_cell (new + (i - old)) (omega (arith, inside)) (
              rest_moved (new + (i - old)) (omega arith) (omega (arith, inside))
              ∙ ap cells (omega arith)
              ∙ e)
        ]),
      )
    where
      in_cell : (i : ℕ) → i < total → shifted i ≡ x → InCells shifted 0 total x
      in_cell i h e = (i, omega arith, h, e)
