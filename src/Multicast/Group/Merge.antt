-- ===== src/Multicast/Group/Merge.antt =====
-- What the first loops of `combine_queue` in dn/skynet-src/skynet_multicast.c come to.
use dn_server.Common.{
  ℕ, zero, suc, ◌+◌, ◌-◌, ◌<◌, ◌≡◌, ◌≢◌, ◌⊎◌, refl, sym, ap, subst, ◌∙◌, inl, inr, List, Option,
  some, ltb, ◌==◌, get_or, Bool-cases, ==→eq, arith,
}
use dn_server.Multicast.Group.{put, enter_loop}
use dn_server.Multicast.Group.Enter.{
  Merging, Known, put-InCells, InCells-put, InCells-below, below-InCells, Merging-skip, Merging-add,
  Merging-known, Merging-move,
}
use dn_server.Multicast.Group.Cells.{InCells, InFirst}

first_split : (q : List ℕ) (i x : ℕ) → InFirst q (suc i) x → InFirst q i x ⊎ (get_or q i 0 ≡ x)
first_split q i x (k, lt, e) = elim (Bool-cases (k == i)) [
  | inl h ↦ inr (ap (λ j. get_or q j 0) (sym (==→eq k i h)) ∙ e)
  | inr h ↦ inl (k, ground arith, e)
]

first_more : (q : List ℕ) (i x : ℕ) → InFirst q i x → InFirst q (suc i) x
first_more q i x (k, lt, e) = (k, omega arith, e)

low_split :
    (cells : ℕ → ℕ) (old x : ℕ)
    → InCells cells 0 old x
    → InCells cells 0 (old - 1) x ⊎ (cells (old - 1) ≡ x)
low_split cells old x (k, l, lt, e) = elim (Bool-cases (k == old - 1)) [
  | inl h ↦ inr (ap cells (sym (==→eq k (old - 1) h)) ∙ e)
  | inr h ↦ inl (k, l, ground arith, e)
]

low_more : (cells : ℕ → ℕ) (old x : ℕ) → InCells cells 0 (old - 1) x → InCells cells 0 old x
low_more cells old x (k, l, lt, e) = (k, l, omega arith, e)

-- The states know the same handles.
abbrev Same : (ℕ → Type 0) → (ℕ → Type 0) → Type 0
Same p r = (x : ℕ) → (p x → r x) × (r x → p x)

module _ (q : List ℕ) (size : ℕ) (cells : ℕ → ℕ) (i old n last : ℕ)
    (m : Merging q size cells (suc i) old (suc n) last) where
  abbrev h : ℕ
  h = get_or q i 0

  skip-Same :
      h ≡ last → Same (Known q size cells (suc i) old (suc n)) (Known q size cells i old (suc n))
  skip-Same e x = (
    λ k. elim k [
      | inl f ↦ elim (first_split q i x f) [
        | inl f' ↦ inl f'
        | inr eq ↦ inr (
            subst (λ y. InCells cells 0 old y ⊎ InCells cells (suc n) size y) (sym e ∙ eq)
              (elim m.met [
                | inl z ↦ absurd (omega (arith, m.positive i (omega arith), e, z))
                | inr found ↦ found
              ]))
      ]
      | inr c ↦ inr c
    ],
    λ k. elim k [ inl f ↦ inl (first_more q i x f) | inr c ↦ inr c ],
  )

  add-Same : Same (Known q size cells (suc i) old (suc n)) (Known q size (put cells n h) i old n)
  add-Same x = (
    λ k. elim k [
      | inl f ↦ elim (first_split q i x f) [
        | inl f' ↦ inl f'
        | inr eq ↦ inr (inr (put-InCells cells n h size x (omega (arith, m.inside)) (inl eq)))
      ]
      | inr (inl c) ↦ inr (inl (below-InCells cells n h old x (omega (arith, m.room)) c))
      | inr (inr c) ↦ inr (inr (put-InCells cells n h size x (omega (arith, m.inside)) (inr c)))
    ],
    λ k. elim k [
      | inl f ↦ inl (first_more q i x f)
      | inr (inl c) ↦ inr (inl (InCells-below cells n h old x (omega (arith, m.room)) c))
      | inr (inr c) ↦ elim (InCells-put cells n h size x c) [
        | inl eq ↦ inl (i, omega arith, eq)
        | inr c' ↦ inr (inr c')
      ]
    ],
  )

  Known-Same :
      0 < old
      → h ≡ cells (old - 1)
      → Same (Known q size cells (suc i) old (suc n)) (Known q size cells i old (suc n))
  Known-Same pos e x = (
    λ k. elim k [
      | inl f ↦ elim (first_split q i x f) [
        | inl f' ↦ inl f'
        | inr eq ↦ inr (inl (old - 1, omega arith, omega arith, sym e ∙ eq))
      ]
      | inr c ↦ inr c
    ],
    λ k. elim k [ inl f ↦ inl (first_more q i x f) | inr c ↦ inr c ],
  )

  move-Same :
      0 < old
      → Same
          (Known q size cells (suc i) old (suc n))
          (Known q size (put cells n (cells (old - 1))) (suc i) (old - 1) n)
  move-Same pos x =
      let p = cells (old - 1) in
      (
        λ k. elim k [
          | inl f ↦ inl f
          | inr (inl c) ↦ elim (low_split cells old x c) [
            | inl c' ↦ inr (inl (below-InCells cells n p (old - 1) x (omega (arith, m.room)) c'))
            | inr eq ↦ inr (inr (put-InCells cells n p size x (omega (arith, m.inside)) (inl eq)))
          ]
          | inr (inr c) ↦ inr (inr (put-InCells cells n p size x (omega (arith, m.inside)) (inr c)))
        ],
        λ k. elim k [
          | inl f ↦ inl f
          | inr (inl c) ↦ inr (
              inl (
                low_more cells old x
                  (InCells-below cells n p (old - 1) x (omega (arith, m.room)) c)))
          | inr (inr c) ↦ elim (InCells-put cells n p size x c) [
            | inl eq ↦ inr (inl (old - 1, omega arith, omega arith, eq))
            | inr c' ↦ inr (inr c')
          ]
        ],
      )

abbrev pub Merges : List ℕ → ℕ → (ℕ → ℕ) → ℕ → ℕ → ℕ → Option ((ℕ → ℕ) × ℕ × ℕ) → Type 0
Merges q size cells i old new r =
    (cells' : ℕ → ℕ) × (old' : ℕ) × (new' : ℕ) × (last : ℕ) × (r ≡ some (cells', old', new'))
    × Merging q size cells' 0 old' new' last
    × Same (Known q size cells i old new) (Known q size cells' 0 old' new')

Merges-Same :
    (q : List ℕ) (size : ℕ) (cells cells₁ : ℕ → ℕ) (i old new i₁ old₁ new₁ : ℕ)
    (r : Option ((ℕ → ℕ) × ℕ × ℕ))
    → Same (Known q size cells i old new) (Known q size cells₁ i₁ old₁ new₁)
    → Merges q size cells₁ i₁ old₁ new₁ r
    → Merges q size cells i old new r
Merges-Same q size cells cells₁ i old new i₁ old₁ new₁ r s (cells', old', new', last, e, m, t) = (
  cells',
  old',
  new',
  last,
  e,
  m,
  λ x. (let (f, g) = s x in let (f', g') = t x in ((λ k. f' (f k)), (λ k. g (g' k)))),
)

pub enter_loop-Merges :
    (fuel : ℕ) (q : List ℕ) (size : ℕ) (cells : ℕ → ℕ) (i old new last : ℕ)
    → Merging q size cells i old new last
    → i + old < fuel
    → Merges q size cells i old new (enter_loop fuel q cells i old new last)
unfolding enter_loop
enter_loop-Merges zero q size cells i old new last m h = absurd (omega arith)
enter_loop-Merges (suc fuel) q size cells zero old new last m h =
    (cells, old, new, last, refl, m, λ x. ((λ k. k), (λ k. k)))
enter_loop-Merges (suc fuel) q size cells (suc i) old zero last m h = absurd (omega (arith, m.room))
enter_loop-Merges (suc fuel) q size cells (suc i) old (suc n) last m h =
    let handle = get_or q i 0 in
    let p = cells (old - 1) in
    let one : suc n - 1 ≡ n = omega arith in
    elim (Bool-cases (handle == last)) [
      | inl met ↦
          let e = ==→eq handle last met in
          rw met (
            Merges-Same q size cells cells (suc i) old (suc n) i old (suc n) _
              (skip-Same q size cells i old n last m e)
              (enter_loop-Merges fuel q size cells i old (suc n) last
                (Merging-skip q size cells i old n last m e) (omega arith)))
      | inr new_one ↦
          let ne : handle ≢ last = λ e. absurd (ground arith) in
          let add = λ (above : (old ≡ 0) ⊎ (p < handle)).
            Merges-Same q size cells (put cells n handle) (suc i) old (suc n) i old n
              (enter_loop fuel q (put cells n handle) i old n handle)
              (add-Same q size cells i old n last m)
              (enter_loop-Merges fuel q size (put cells n handle) i old n handle
                (Merging-add q size cells i old n last m ne above) (omega arith)) in
          elim (Bool-cases (old == 0)) [
            | inl none_left ↦ rw (new_one, none_left, one) (add (inl (==→eq old 0 none_left)))
            | inr some_left ↦ elim (Bool-cases (handle == p)) [
              | inl equal ↦
                  let e = ==→eq handle p equal in
                  rw (new_one, some_left, equal)
                    (Merges-Same q size cells cells (suc i) old (suc n) i old (suc n) _
                      (Known-Same q size cells i old n last m (ground arith) e)
                      (enter_loop-Merges fuel q size cells i old (suc n) handle
                        (Merging-known q size cells i old n last m (ground arith) e) (omega arith)))
              | inr other ↦ elim (Bool-cases (ltb p handle)) [
                | inl above ↦ rw (new_one, some_left, other, above, one) (add (inr (ground arith)))
                | inr under ↦
                    rw (new_one, some_left, other, under, one)
                      (Merges-Same q size cells (put cells n p) (suc i) old (suc n) (suc i)
                        (old - 1) n _ (move-Same q size cells i old n last m (ground arith))
                        (enter_loop-Merges fuel q size (put cells n p) (suc i) (old - 1) n 0
                          (Merging-move q size cells i old n last m (ground arith) (ground arith))
                          (ground arith)))
              ]
            ]
          ]
    ]
