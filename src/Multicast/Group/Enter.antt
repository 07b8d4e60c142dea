-- ===== src/Multicast/Group/Enter.antt =====
-- The first loops of `combine_queue` in dn/skynet-src/skynet_multicast.c: the entering handles are
-- merged with the members, in the array of the members.
use dn_server.Common.{
  ℕ, suc, ◌+◌, ◌-◌, ◌≤◌, ◌<◌, ◌≡◌, ◌≢◌, ◌⊎◌, refl, sym, ap, subst, ◌∙◌, inl, inr, List, ltb, ◌==◌,
  get_or, Bool-cases, ==→eq, arith,
}
use dn_server.Multicast.Group.{put}
use dn_server.Multicast.Group.Cells.{InCells, Ascends, InFirst, put_self, put_other}

-- What holds in the loop: below `old` and from `new` on the cells ascend, and all of the first are
-- below all of the others. An entering handle that is left is below the others, or was met last.
pub record Merging (q : List ℕ) (size : ℕ) (cells : ℕ → ℕ) (i old new last : ℕ) : Type 0 where
  pub room : old + i ≤ new
  pub inside : new ≤ size
  pub low : Ascends cells 0 old
  pub high : Ascends cells new size
  pub below : (j k : ℕ) → j < old → new ≤ k → k < size → cells j < cells k
  pub sorted : (j k : ℕ) → j ≤ k → k < i → get_or q j 0 ≤ get_or q k 0
  pub positive : (k : ℕ) → k < i → 0 < get_or q k 0
  pub enters :
      (k j : ℕ) → k < i → new ≤ j → j < size → (get_or q k 0 < cells j) ⊎ (get_or q k 0 ≡ last)
  pub met : (last ≡ 0) ⊎ ((InCells cells 0 old last ⊎ InCells cells new size last))

-- All handles of the state.
abbrev pub Known : List ℕ → ℕ → (ℕ → ℕ) → ℕ → ℕ → ℕ → ℕ → Type 0
Known q size cells i old new x = InFirst q i x ⊎ (InCells cells 0 old x ⊎ InCells cells new size x)

-- A handle that is put before the others.
module _ (cells : ℕ → ℕ) (n v : ℕ) where
  pub put_below : (k : ℕ) → k < n → put cells n v k ≡ cells k
  put_below k h = put_other cells n v k (λ e. omega (arith, e))

  pub put_above : (k : ℕ) → n < k → put cells n v k ≡ cells k
  put_above k h = put_other cells n v k (λ e. omega (arith, e))

  pub put-Ascends :
      (size : ℕ)
      → Ascends cells (suc n) size
      → ((k : ℕ) → n < k → k < size → v < cells k)
      → Ascends (put cells n v) n size
  put-Ascends size high least i j l lt h = elim (Bool-cases (i == n)) [
    | inl e ↦
        let q = ==→eq i n e in
        let s = put_self cells n v in
        let r = put_above j (omega (arith, q)) in
        let d = least j (omega (arith, q)) h in
        subst (λ k. put cells n v k < put cells n v j) (sym q) (omega (arith, s, r, d))
    | inr e ↦
        let r = put_above i (ground arith) in
        let r' = put_above j (ground arith) in omega (arith, r, r', high i j (ground arith) lt h)
  ]

  pub put-InCells :
      (size x : ℕ)
      → n < size
      → (v ≡ x) ⊎ InCells cells (suc n) size x
      → InCells (put cells n v) n size x
  put-InCells size x h (inl e) = (n, omega arith, h, put_self cells n v ∙ e)
  put-InCells size x h (inr (i, l, lt, e)) = (i, omega arith, lt, put_above i (omega arith) ∙ e)

  pub InCells-put :
      (size x : ℕ) → InCells (put cells n v) n size x → (v ≡ x) ⊎ InCells cells (suc n) size x
  InCells-put size x (i, l, lt, e) = elim (Bool-cases (i == n)) [
    | inl q ↦
        let q' = ==→eq i n q in inl (sym (put_self cells n v) ∙ ap (put cells n v) (sym q') ∙ e)
    | inr ne ↦ inr (i, ground arith, lt, sym (put_above i (ground arith)) ∙ e)
  ]

  -- The members below are not touched.
  pub InCells-below :
      (old x : ℕ) → old ≤ n → InCells (put cells n v) 0 old x → InCells cells 0 old x
  InCells-below old x h (i, l, lt, e) = (i, l, lt, sym (put_below i (omega arith)) ∙ e)

  pub below-InCells :
      (old x : ℕ) → old ≤ n → InCells cells 0 old x → InCells (put cells n v) 0 old x
  below-InCells old x h (i, l, lt, e) = (i, l, lt, put_below i (omega arith) ∙ e)

le-cases : (a b c : ℕ) → c ≡ b → a ≤ b → (a < c) ⊎ (a ≡ b)
le-cases a b c e h = elim (Bool-cases (ltb a b)) [
  | inl lt ↦ inl (ground arith)
  | inr ge ↦ inr (ground arith)
]

module _ (q : List ℕ) (size : ℕ) (cells : ℕ → ℕ) (i old n last : ℕ)
    (m : Merging q size cells (suc i) old (suc n) last) where
  abbrev handle : ℕ
  handle = get_or q i 0

  -- The handle was met before.
  pub Merging-skip : handle ≡ last → Merging q size cells i old (suc n) last
  Merging-skip e = record {
    room = omega (arith, m.room);
    inside = m.inside;
    low = m.low;
    high = m.high;
    below = m.below;
    sorted = λ j k l h. m.sorted j k l (omega arith);
    positive = λ k h. m.positive k (omega arith);
    enters = λ k j h l lt. m.enters k j (omega arith) l lt;
    met = m.met;
  }

  under : (j : ℕ) → j < old → (old ≡ 0) ⊎ (cells (old - 1) < handle) → cells j < handle
  under j h (inl e) = absurd (omega (arith, e))
  under j h (inr lt) = elim (Bool-cases (j == old - 1)) [
    | inl e ↦ subst (λ k. cells k < handle) (sym (==→eq j (old - 1) e)) lt
    | inr ne ↦ omega (arith, lt, m.low j (old - 1) (omega arith) (ground arith) (omega arith))
  ]

  -- It goes before those that stand at the end of the array.
  pub Merging-add :
      handle ≢ last
      → (old ≡ 0) ⊎ (cells (old - 1) < handle)
      → Merging q size (put cells n handle) i old n handle
  Merging-add ne above =
      let least : (k : ℕ) → n < k → k < size → handle < cells k = λ k l h.
        elim (m.enters i k (omega arith) (omega arith) h) [ inl lt ↦ lt | inr e ↦ absurd (ne e) ] in
      let greatest : (j : ℕ) → j < old → cells j < handle = λ j h. under j h above in
      record {
        room = omega (arith, m.room);
        inside = omega (arith, m.inside);
        low = λ j k l lt h. omega (
          arith,
          m.room,
          put_below cells n handle j (omega (arith, m.room)),
          put_below cells n handle k (omega (arith, m.room)),
          m.low j k l lt h,
        );
        high = put-Ascends cells n handle size m.high least;
        below = λ j k l l' h. elim (Bool-cases (k == n)) [
          | inl e ↦
              let e' = ==→eq k n e in
              subst (λ c. put cells n handle j < put cells n handle c) (sym e')
                (omega (
                  arith,
                  put_self cells n handle,
                  put_below cells n handle j (omega (arith, m.room)),
                  greatest j l,
                ))
          | inr ne' ↦ omega (
            arith,
            put_above cells n handle k (ground arith),
            put_below cells n handle j (omega (arith, m.room)),
            m.below j k l (ground arith) h,
          )
        ];
        sorted = λ j k l h. m.sorted j k l (omega arith);
        positive = λ k h. m.positive k (omega arith);
        enters = λ k j h l lt. elim (Bool-cases (j == n)) [
          | inl e ↦
              let e' = ==→eq j n e in
              subst (λ c. (get_or q k 0 < put cells n handle c) ⊎ (get_or q k 0 ≡ handle)) (sym e')
                (le-cases (get_or q k 0) handle (put cells n handle n) (put_self cells n handle)
                  (m.sorted k i (omega arith) (omega arith)))
          | inr ne' ↦ inl (
              omega (
                arith,
                put_above cells n handle j (ground arith),
                least j (ground arith) lt,
                m.sorted k i (omega arith) (omega arith),
              ))
        ];
        met = inr (inr (n, omega arith, omega (arith, m.inside), put_self cells n handle));
      }

  -- It is a member.
  pub Merging-known : 0 < old → handle ≡ cells (old - 1) → Merging q size cells i old (suc n) handle
  Merging-known pos e = record {
    room = omega (arith, m.room);
    inside = m.inside;
    low = m.low;
    high = m.high;
    below = m.below;
    sorted = λ j k l h. m.sorted j k l (omega arith);
    positive = λ k h. m.positive k (omega arith);
    enters = λ k j h l lt. inl (
        omega (
          arith,
          e,
          m.sorted k i (omega arith) (omega arith),
          m.below (old - 1) j (omega arith) l lt,
        ));
    met = inr (inl (old - 1, omega arith, omega arith, sym e));
  }

  -- The last member goes before those at the end of the array.
  pub Merging-move :
      0 < old
      → handle < cells (old - 1)
      → Merging q size (put cells n (cells (old - 1))) (suc i) (old - 1) n 0
  Merging-move pos lt =
      let p = cells (old - 1) in
      let least : (k : ℕ) → n < k → k < size → p < cells k =
        λ k l h. m.below (old - 1) k (omega arith) (omega arith) h in
      record {
        room = omega (arith, m.room);
        inside = omega (arith, m.inside);
        low = λ j k l l' h. omega (
          arith,
          m.room,
          put_below cells n p j (omega (arith, m.room)),
          put_below cells n p k (omega (arith, m.room)),
          m.low j k l l' (omega arith),
        );
        high = put-Ascends cells n p size m.high least;
        below = λ j k l l' h. elim (Bool-cases (k == n)) [
          | inl e ↦
              subst (λ c. put cells n p j < put cells n p c) (sym (==→eq k n e))
                (omega (
                  arith,
                  put_self cells n p,
                  put_below cells n p j (omega (arith, m.room)),
                  m.low j (old - 1) (omega arith) (omega arith) (omega arith),
                ))
          | inr ne ↦ omega (
            arith,
            put_above cells n p k (ground arith),
            put_below cells n p j (omega (arith, m.room)),
            m.below j k (omega arith) (ground arith) h,
          )
        ];
        sorted = m.sorted;
        positive = m.positive;
        enters = λ k j h l l'. inl (elim (Bool-cases (j == n)) [
          | inl e ↦
              subst (λ c. get_or q k 0 < put cells n p c) (sym (==→eq j n e))
                (omega (arith, put_self cells n p, m.sorted k i (omega arith) (omega arith)))
          | inr ne ↦ omega (
            arith,
            put_above cells n p j (ground arith),
            least j (ground arith) l',
            m.sorted k i (omega arith) (omega arith),
          )
        ]);
        met = inl refl;
      }
