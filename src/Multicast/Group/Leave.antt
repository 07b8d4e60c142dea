-- ===== src/Multicast/Group/Leave.antt =====
-- The last loops of `combine_queue` in dn/skynet-src/skynet_multicast.c: the leaving handles are
-- dropped from the members, which move to the start of the array.
use dn_server.Common.{
  ℕ, ◌+◌, ◌≤◌, ◌<◌, ◌≡◌, ◌⊎◌, sym, ap, subst, ◌∙◌, inl, inr, List, ◌∷◌, ◌==◌, Bool-cases, ==→eq,
  arith,
}
use dn_server.Multicast.Group.{put}
use dn_server.Multicast.Group.Cells.{InCells, Ascends, put_self, put_other}
use dn_server.Multicast.Group.Sort.{InList, IsSorted}

-- What holds in the loop: the members below `new` stay, those from `old` on are to be tested.
pub record Leaving (q : List ℕ) (size : ℕ) (cells : ℕ → ℕ) (old new : ℕ) : Type 0 where
  pub room : new ≤ old
  pub inside : old ≤ size
  pub kept : Ascends cells 0 new
  pub left : Ascends cells old size
  pub below : (j k : ℕ) → j < new → old ≤ k → k < size → cells j < cells k
  pub sorted : IsSorted q
  pub passed : (j h : ℕ) → j < new → InList h q → cells j < h

abbrev pub Member : ℕ → (ℕ → ℕ) → ℕ → ℕ → ℕ → Type 0
Member size cells old new x = InCells cells 0 new x ⊎ InCells cells old size x

-- The member that is tested, and the rest.
pub first_left :
    (size old : ℕ) (cells : ℕ → ℕ) (x : ℕ)
    → InCells cells old size x
    → (cells old ≡ x) ⊎ InCells cells (old + 1) size x
first_left size old cells x (i, l, lt, e) = elim (Bool-cases (i == old)) [
  | inl h ↦ inl (ap cells (sym (==→eq i old h)) ∙ e)
  | inr h ↦ inr (i, ground arith, lt, e)
]

pub more_left :
    (size old : ℕ) (cells : ℕ → ℕ) (x : ℕ)
    → InCells cells (old + 1) size x
    → InCells cells old size x
more_left size old cells x (i, l, lt, e) = (i, omega arith, lt, e)

module _ (handle : ℕ) (q : List ℕ) (size : ℕ) (cells : ℕ → ℕ) (old new : ℕ)
    (m : Leaving (handle ∷ q) size cells old new) (lt : old < size) where
  abbrev p : ℕ
  p = cells old

  rest-IsSorted : IsSorted q
  rest-IsSorted = let (_, s) = m.sorted in s

  pub Leaving-drop : Leaving q size cells (old + 1) new
  Leaving-drop = record {
    room = omega (arith, m.room);
    inside = omega arith;
    kept = m.kept;
    left = λ i j l h k. m.left i j (omega arith) h k;
    below = λ j k l h u. m.below j k l (omega arith) u;
    sorted = rest-IsSorted;
    passed = λ j h l k. m.passed j h l (inr k);
  }

  pub Leaving-skip : Leaving q size cells old new
  Leaving-skip = record {
    room = m.room;
    inside = m.inside;
    kept = m.kept;
    left = m.left;
    below = m.below;
    sorted = rest-IsSorted;
    passed = λ j h l k. m.passed j h l (inr k);
  }

  kept_cells : (j : ℕ) → j < new → put cells new p j ≡ cells j
  kept_cells j h = put_other cells new p j (λ e. omega (arith, e))

  left_cells : (j : ℕ) → old < j → put cells new p j ≡ cells j
  left_cells j h = put_other cells new p j (λ e. omega (arith, e, m.room))

  -- A bound of the members that are kept, with the one that is added.
  keep_bound :
      (b : ℕ)
      → p < b
      → ((j : ℕ) → j < new → cells j < b)
      → (j : ℕ) → j < new + 1
      → put cells new p j < b
  keep_bound b pb others j h = elim (Bool-cases (j == new)) [
    | inl e ↦
        subst (λ k. put cells new p k < b) (sym (==→eq j new e))
          (omega (arith, put_self cells new p))
    | inr ne ↦ omega (arith, kept_cells j (ground arith), others j (ground arith))
  ]

  handle_least : (h : ℕ) → InList h (handle ∷ q) → handle ≤ h
  handle_least h (inl e) = omega (arith, e)
  handle_least h (inr k) = let (least, _) = m.sorted in least h k

  pub Leaving-keep : p < handle → Leaving (handle ∷ q) size (put cells new p) (old + 1) (new + 1)
  Leaving-keep above = record {
    room = omega (arith, m.room);
    inside = omega arith;
    kept = λ i j l h k. elim (Bool-cases (j == new)) [
      | inl e ↦
          subst (λ c. put cells new p i < put cells new p c) (sym (==→eq j new e))
            (let e' = ==→eq j new e in
              omega (
                arith,
                put_self cells new p,
                kept_cells i (omega (arith, e')),
                m.below i old (omega (arith, e')) (omega arith) lt,
              ))
      | inr ne ↦ omega (
        arith,
        kept_cells i (ground arith),
        kept_cells j (ground arith),
        m.kept i j l h (ground arith),
      )
    ];
    left = λ i j l h k. omega (
      arith,
      left_cells i (omega arith),
      left_cells j (omega arith),
      m.left i j (omega arith) h k,
    );
    below = λ j k l h u.
        keep_bound (put cells new p k)
          (omega (arith, left_cells k (omega arith), m.left old k (omega arith) (omega arith) u))
          (λ i b. omega (arith, left_cells k (omega arith), m.below i k b (omega arith) u)) j l;
    sorted = m.sorted;
    passed = λ j h l k.
        keep_bound h (omega (arith, above, handle_least h k)) (λ i b. m.passed i h b k) j l;
  }

  pub keep-Member :
      (x : ℕ)
      → (Member size (put cells new p) (old + 1) (new + 1) x → Member size cells old new x)
        × (Member size cells old new x → Member size (put cells new p) (old + 1) (new + 1) x)
  keep-Member x = (
    (λ k. elim k [
      | inl (i, l, h, e) ↦ elim (Bool-cases (i == new)) [
        | inl eq ↦ inr (
          old,
          omega arith,
          lt,
          sym (put_self cells new p) ∙ ap (put cells new p) (sym (==→eq i new eq)) ∙ e,
        )
        | inr ne ↦ inl (i, l, ground arith, sym (kept_cells i (ground arith)) ∙ e)
      ]
      | inr (i, l, h, e) ↦ inr (i, omega arith, h, sym (left_cells i (omega arith)) ∙ e)
    ]),
    (λ k. elim k [
      | inl (i, l, h, e) ↦ inl (i, l, omega arith, kept_cells i h ∙ e)
      | inr c ↦ elim (first_left size old cells x c) [
        | inl e ↦ inl (new, omega arith, omega arith, put_self cells new p ∙ e)
        | inr (i, l, h, e) ↦ inr (i, l, h, left_cells i (omega arith) ∙ e)
      ]
    ]),
  )
