-- ===== src/Multicast/Group/Remove.antt =====
-- What the last loops of `combine_queue` in dn/skynet-src/skynet_multicast.c come to.
use dn_server.Common.{
  ℕ, zero, suc, ◌+◌, ◌-◌, ◌≤◌, ◌<◌, ◌≡◌, ◌⊎◌, refl, ◌∙◌, inl, inr, List, [], ◌∷◌, Option, some, ltb,
  leb, ◌==◌, length, Bool-cases, ==→eq, arith,
}
use dn_server.Multicast.Group.{put, leave_loop}
use dn_server.Multicast.Group.Sort.{InList}
use dn_server.Multicast.Group.Leave.{
  Leaving, Member, first_left, more_left, Leaving-drop, Leaving-skip, Leaving-keep, keep-Member,
}

-- The members without those that leave.
abbrev pub Without : List ℕ → (ℕ → Type 0) → (ℕ → Type 0) → Type 0
Without q before after =
    (x : ℕ) → (after x → before x × (InList x q → ⊥)) × (before x → (InList x q → ⊥) → after x)

abbrev pub Leaves : List ℕ → ℕ → (ℕ → ℕ) → ℕ → ℕ → Option ((ℕ → ℕ) × ℕ × ℕ × ℕ) → Type 0
Leaves q size cells old new r =
    (cells' : ℕ → ℕ) × (old' : ℕ) × (new' : ℕ) × (count : ℕ) × (r
      ≡ some (cells', old', new', count))
    × Leaving [] size cells' old' new'
    × ((count ≡ new' + (size - old')) ⊎ ((old' ≡ size) × (count ≡ 0)))
    × Without q (Member size cells old new) (Member size cells' old' new')

module _ (handle : ℕ) (q : List ℕ) (size : ℕ) (cells : ℕ → ℕ) (old new : ℕ)
    (m : Leaving (handle ∷ q) size cells old new) (lt : old < size) where
  abbrev p : ℕ
  p = cells old

  drop-Leaves :
      (r : Option ((ℕ → ℕ) × ℕ × ℕ × ℕ))
      → handle ≡ p
      → Leaves q size cells (old + 1) new r
      → Leaves (handle ∷ q) size cells old new r
  drop-Leaves r e (cells', old', new', count, eq, done, c, w) = (
    cells',
    old',
    new',
    count,
    eq,
    done,
    c,
    λ x. (
      (λ k.
          (let (f, g) = w x in
            let (member, out) = f k in
            (
              elim member [ inl a ↦ inl a | inr b ↦ inr (more_left size old cells x b) ],
              λ h. elim h [
                | inl same ↦ elim member [
                  | inl (i, l, u, ex) ↦ omega (arith, m.below i old u (omega arith) lt, e, same, ex)
                  | inr (i, l, u, ex) ↦
                      omega (arith, m.left old i (omega arith) (omega arith) u, e, same, ex)
                ]
                | inr h' ↦ out h'
              ],
            ))),
      (λ k out.
          (let (f, g) = w x in
            elim k [
              | inl a ↦ g (inl a) (λ h. out (inr h))
              | inr b ↦ elim (first_left size old cells x b) [
                | inl ex ↦ absurd (out (inl (e ∙ ex)))
                | inr b' ↦ g (inr b') (λ h. out (inr h))
              ]
            ])),
    ),
  )

  skip-Leaves :
      (r : Option ((ℕ → ℕ) × ℕ × ℕ × ℕ))
      → handle < p
      → Leaves q size cells old new r
      → Leaves (handle ∷ q) size cells old new r
  skip-Leaves r h (cells', old', new', count, eq, done, c, w) = (
    cells',
    old',
    new',
    count,
    eq,
    done,
    c,
    λ x. (
      (λ k.
          (let (f, g) = w x in
            let (member, out) = f k in
            (
              member,
              λ i. elim i [
                | inl same ↦ elim member [
                  | inl (j, l, u, ex) ↦ omega (arith, m.passed j handle u (inl refl), same, ex)
                  | inr c ↦ elim (first_left size old cells x c) [
                    | inl ex ↦ omega (arith, h, same, ex)
                    | inr (j, l, u, ex) ↦
                        omega (arith, m.left old j (omega arith) (omega arith) u, h, same, ex)
                  ]
                ]
                | inr i' ↦ out i'
              ],
            ))),
      (λ k out. (let (f, g) = w x in g k (λ i. out (inr i)))),
    ),
  )

  keep-Leaves :
      (r : Option ((ℕ → ℕ) × ℕ × ℕ × ℕ))
      → Leaves (handle ∷ q) size (put cells new p) (old + 1) (new + 1) r
      → Leaves (handle ∷ q) size cells old new r
  keep-Leaves r (cells', old', new', count, eq, done, c, w) = (
    cells',
    old',
    new',
    count,
    eq,
    done,
    c,
    λ x.
        ((let (a, b) = keep-Member handle q size cells old new m lt x in
          let (f, g) = w x in
          ((λ k. (let (member, out) = f k in (a member, out))), (λ k out. g (b k) out)))),
  )

-- No member is left to be tested.
exhausted-Leaves :
    (q : List ℕ) (size : ℕ) (cells : ℕ → ℕ) (old new : ℕ)
    → Leaving q size cells old new
    → size ≤ old
    → Leaves q size cells old new (some (cells, old, new, 0))
exhausted-Leaves q size cells old new m h = (
  cells,
  old,
  new,
  0,
  refl,
  record {
    room = m.room;
    inside = m.inside;
    kept = m.kept;
    left = m.left;
    below = m.below;
    sorted = tt;
    passed = λ j h l k. absurd k;
  },
  inr (omega (arith, m.inside), refl),
  λ x. (
    (λ k. (
      k,
      λ i. elim k [
        | inl (j, l, u, e) ↦ omega (arith, m.passed j x u i, e)
        | inr (j, l, u, e) ↦ omega arith
      ],
    )),
    (λ k out. k),
  ),
)

pub leave_loop-Leaves :
    (fuel : ℕ) (q : List ℕ) (size : ℕ) (cells : ℕ → ℕ) (old new count : ℕ)
    → Leaving q size cells old new
    → count ≡ new + (size - old)
    → length q + (size - old) < fuel
    → Leaves q size cells old new (leave_loop fuel q cells size old new count)
unfolding leave_loop
leave_loop-Leaves zero q size cells old new count m c h = absurd (omega arith)
leave_loop-Leaves (suc fuel) [] size cells old new count m c h =
    (cells, old, new, count, refl, m, inl c, λ x. ((λ k. (k, λ i. i)), (λ k out. k)))
leave_loop-Leaves (suc fuel) (handle ∷ q) size cells old new count m c h =
    let p = cells old in
    elim (Bool-cases (leb size old)) [
      | inl all ↦ rw all (exhausted-Leaves (handle ∷ q) size cells old new m (ground arith))
      | inr some_left ↦
          let lt : old < size = ground arith in
          elim (Bool-cases (handle == p)) [
            | inl equal ↦
                rw (some_left, equal)
                  (drop-Leaves handle q size cells old new m lt _ (==→eq handle p equal) (
                    leave_loop-Leaves fuel q size cells (old + 1) new (count - 1)
                      (Leaving-drop handle q size cells old new m lt) (omega (arith, c, m.room))
                      (omega arith)))
            | inr other ↦ elim (Bool-cases (ltb p handle)) [
              | inl above ↦
                  rw (some_left, other, above)
                    (keep-Leaves handle q size cells old new m lt _ (
                      leave_loop-Leaves fuel (handle ∷ q) size (put cells new p) (old + 1) (new + 1)
                        count (Leaving-keep handle q size cells old new m lt (ground arith))
                        (omega (arith, c)) (omega arith)))
              | inr under ↦
                  rw (some_left, other, under)
                    (skip-Leaves handle q size cells old new m lt _ (ground arith) (
                      leave_loop-Leaves fuel q size cells old new count
                        (Leaving-skip handle q size cells old new m lt) c (omega arith)))
            ]
          ]
    ]
