-- ===== src/Multicast/Group/Sort.antt =====
-- The queues of handles that `combine_queue` in dn/skynet-src/skynet_multicast.c sorts.
use dn_server.Common.{
  ℕ, zero, suc, ◌+◌, ◌^◌, ◌≤◌, ◌<◌, ◌≡◌, ◌⊎◌, refl, sym, ◌∙◌, inl, inr, true, false, List, [], ◌∷◌,
  leb, length, get_or, Bool-cases, arith,
}
use dn_server.Multicast.Group.{compar_uint, insert, qsort}
use dn_server.Multicast.Group.Cells.{InFirst}

abbrev pub InList : ℕ → List ℕ → Type 0
InList x [] = ⊥
InList x (v ∷ vs) = (v ≡ x) ⊎ InList x vs

-- The first handle is the least.
abbrev pub IsSorted : List ℕ → Type 0
IsSorted [] = Unit
IsSorted (v ∷ vs) = ((x : ℕ) → InList x vs → v ≤ x) × IsSorted vs

-- The handles of one harbor, of which none is 0.
abbrev pub IsLocal : ℕ → List ℕ → Type 0
IsLocal base vs = (x : ℕ) → InList x vs → (0 < x) × (base ≤ x) × (x < base + 2 ^ 24)

compar_uint-leb :
    (base a b : ℕ)
    → base + 2 ^ 24 ≤ 2 ^ 32
    → base ≤ a
    → a < base + 2 ^ 24
    → base ≤ b
    → b < base + 2 ^ 24
    → compar_uint a b ≡ leb a b
compar_uint-leb base a b w h i j k = elim (Bool-cases (leb a b)) [
  | inl le ↦ let e : compar_uint a b ≡ true = ground arith in e ∙ sym le
  | inr gt ↦ let e : compar_uint a b ≡ false = ground arith in e ∙ sym gt
]

insert-InList :
    (x v : ℕ) (ws : List ℕ)
    → (InList x (insert v ws) → (v ≡ x) ⊎ InList x ws)
      × ((v ≡ x) ⊎ InList x ws → InList x (insert v ws))
unfolding insert
insert-InList x v [] = ((λ h. h), (λ h. h))
insert-InList x v (w ∷ ws) = elim (Bool-cases (compar_uint v w)) [
  | inl here ↦ rw here ((λ h. h), (λ h. h))
  | inr there ↦
      let (f, g) = insert-InList x v ws in
      rw there (
        (λ h. elim h [
          | inl e ↦ inr (inl e)
          | inr k ↦ elim (f k) [ inl e ↦ inl e | inr k' ↦ inr (inr k') ]
        ]),
        (λ h. elim h [
          | inl e ↦ inr (g (inl e))
          | inr (inl e) ↦ inl e
          | inr (inr k) ↦ inr (g (inr k))
        ]),
      )
]

pub qsort-InList :
    (x : ℕ) (vs : List ℕ)
    → (InList x (qsort vs) → InList x vs) × (InList x vs → InList x (qsort vs))
unfolding qsort
qsort-InList x [] = ((λ h. h), (λ h. h))
qsort-InList x (v ∷ vs) =
    let (f, g) = insert-InList x v (qsort vs) in
    let (f', g') = qsort-InList x vs in
    (
      (λ h. elim (f h) [ inl e ↦ inl e | inr k ↦ inr (f' k) ]),
      (λ h. elim h [ inl e ↦ g (inl e) | inr k ↦ g (inr (g' k)) ]),
    )

insert-IsSorted :
    (base v : ℕ) (ws : List ℕ)
    → base + 2 ^ 24 ≤ 2 ^ 32
    → IsLocal base (v ∷ ws)
    → IsSorted ws
    → IsSorted (insert v ws)
unfolding insert
insert-IsSorted base v [] w local sorted = ((λ x h. absurd h), tt)
insert-IsSorted base v (u ∷ ws) w local (least, sorted) =
    let (_, lv, hv) = local v (inl refl) in
    let (_, lu, hu) = local u (inr (inl refl)) in
    let c = compar_uint-leb base v u w lv hv lu hu in
    elim (Bool-cases (leb v u)) [
      | inl le ↦
          rw (c, le)
            (
              (λ x h. elim h [
                | inl e ↦ ground arith
                | inr k ↦ (let l = least x k in ground arith)
              ]),
              (least, sorted),
            )
      | inr gt ↦
          rw (c, gt)
            (
              (λ x h. elim ((insert-InList x v ws).0 h) [
                | inl e ↦ ground arith
                | inr k ↦ least x k
              ]),
              insert-IsSorted base v ws w
                  (λ x h. local x (elim h [ inl e ↦ inl e | inr k ↦ inr (inr k) ])) sorted,
            )
    ]

pub qsort-IsSorted :
    (base : ℕ) (vs : List ℕ) → base + 2 ^ 24 ≤ 2 ^ 32 → IsLocal base vs → IsSorted (qsort vs)
unfolding qsort
qsort-IsSorted base [] w local = tt
qsort-IsSorted base (v ∷ vs) w local =
    insert-IsSorted base v (qsort vs) w
      (λ x h. local x (elim h [ inl e ↦ inl e | inr k ↦ inr ((qsort-InList x vs).0 k) ]))
      (qsort-IsSorted base vs w (λ x h. local x (inr h)))

-- The handles by their indices.
pub get_or-InList : (q : List ℕ) (k : ℕ) → k < length q → InList (get_or q k 0) q
get_or-InList [] k h = absurd (omega arith)
get_or-InList (v ∷ vs) zero h = inl refl
get_or-InList (v ∷ vs) (suc k) h = inr (get_or-InList vs k (omega arith))

pub InList-InFirst : (q : List ℕ) (x : ℕ) → InList x q → InFirst q (length q) x
InList-InFirst [] x h = absurd h
InList-InFirst (v ∷ vs) x (inl e) = (0, omega arith, e)
InList-InFirst (v ∷ vs) x (inr h) =
    let (k, lt, e) = InList-InFirst vs x h in (suc k, omega arith, e)

pub get_or-IsSorted :
    (q : List ℕ) → IsSorted q → (j k : ℕ) → j ≤ k → k < length q → get_or q j 0 ≤ get_or q k 0
get_or-IsSorted [] sorted j k l h = absurd (omega arith)
get_or-IsSorted (v ∷ vs) sorted zero zero l h = omega arith
get_or-IsSorted (v ∷ vs) (least, sorted) zero (suc k) l h =
    least (get_or vs k 0) (get_or-InList vs k (omega arith))
get_or-IsSorted (v ∷ vs) sorted (suc j) zero l h = absurd (omega arith)
get_or-IsSorted (v ∷ vs) (least, sorted) (suc j) (suc k) l h =
    get_or-IsSorted vs sorted j k (omega arith) (omega arith)
