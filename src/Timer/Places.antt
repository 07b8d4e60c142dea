-- ===== src/Timer/Places.antt =====
-- Where a timer stands in the wheel, and how that place moves as time passes.
use native.Mathlib.Decide.{ℕ_discrete}
use dn_server.Common.{
  ℕ, ◌+◌, ◌-◌, ◌*◌, ◌/◌, ◌%◌, ◌^◌, ◌<◌, ◌≡◌, ◌≢◌, sym, ap, ◌∙◌, ◌⊎◌, inl, inr, if◌then◌else◌, arith,
  eq→==, ne→==,
}
use dn_server.Timer.{same_block, find_level, digit}

-- A list of the wheel.
pub data Place : Type 0 where
  near : ℕ → Place
  level : ℕ → ℕ → Place

-- The list in which `add_node` puts a timer for `expire` at `time`.
abbrev pub home : ℕ → ℕ → Place
home time expire =
    if same_block 8 expire time
    then near (expire % 256)
    else level (find_level 3 0 14 expire time) (digit (find_level 3 0 14 expire time) expire - 1)

-- The five places, by the coarsest block in which `expire` and `time` differ.
pub home-near : (t e : ℕ) → e / 2 ^ 8 ≡ t / 2 ^ 8 → home t e ≡ near (e % 256)
home-near t e h = rw (eq→== (e / 2 ^ 8) (t / 2 ^ 8) h)

home-level0 :
    (t e : ℕ)
    → e / 2 ^ 8 ≢ t / 2 ^ 8
    → e / 2 ^ 14 ≡ t / 2 ^ 14
    → home t e ≡ level 0 (e / 2 ^ 8 % 64 - 1)
home-level0 t e n h = rw (ne→== (e / 2 ^ 8) (t / 2 ^ 8) n, eq→== (e / 2 ^ 14) (t / 2 ^ 14) h)

home-level1 :
    (t e : ℕ)
    → e / 2 ^ 14 ≢ t / 2 ^ 14
    → e / 2 ^ 20 ≡ t / 2 ^ 20
    → home t e ≡ level 1 (e / 2 ^ 14 % 64 - 1)
home-level1 t e n h = rw (
  ne→== (e / 2 ^ 8) (t / 2 ^ 8) (omega arith),
  ne→== (e / 2 ^ 14) (t / 2 ^ 14) n,
  eq→== (e / 2 ^ 20) (t / 2 ^ 20) h,
)

home-level2 :
    (t e : ℕ)
    → e / 2 ^ 20 ≢ t / 2 ^ 20
    → e / 2 ^ 26 ≡ t / 2 ^ 26
    → home t e ≡ level 2 (e / 2 ^ 20 % 64 - 1)
home-level2 t e n h = rw (
  ne→== (e / 2 ^ 8) (t / 2 ^ 8) (omega arith),
  ne→== (e / 2 ^ 14) (t / 2 ^ 14) (omega arith),
  ne→== (e / 2 ^ 20) (t / 2 ^ 20) n,
  eq→== (e / 2 ^ 26) (t / 2 ^ 26) h,
)

home-level3 : (t e : ℕ) → e / 2 ^ 26 ≢ t / 2 ^ 26 → home t e ≡ level 3 (e / 2 ^ 26 % 64 - 1)
home-level3 t e n = rw (
  ne→== (e / 2 ^ 8) (t / 2 ^ 8) (omega arith),
  ne→== (e / 2 ^ 14) (t / 2 ^ 14) (omega arith),
  ne→== (e / 2 ^ 20) (t / 2 ^ 20) (omega arith),
  ne→== (e / 2 ^ 26) (t / 2 ^ 26) n,
)

pub home-cases :
    (t e : ℕ)
    → (e / 2 ^ 8 ≡ t / 2 ^ 8)
      ⊎ ((e / 2 ^ 8 ≢ t / 2 ^ 8) × (e / 2 ^ 14 ≡ t / 2 ^ 14))
      ⊎ ((e / 2 ^ 14 ≢ t / 2 ^ 14) × (e / 2 ^ 20 ≡ t / 2 ^ 20))
      ⊎ ((e / 2 ^ 20 ≢ t / 2 ^ 20) × (e / 2 ^ 26 ≡ t / 2 ^ 26))
      ⊎ (e / 2 ^ 26 ≢ t / 2 ^ 26)
home-cases t e = elim (ℕ_discrete (e / 2 ^ 8) (t / 2 ^ 8)) [
  | yes p ↦ inl p
  | no p ↦ inr (elim (ℕ_discrete (e / 2 ^ 14) (t / 2 ^ 14)) [
    | yes q ↦ inl (p, q)
    | no q ↦ inr (elim (ℕ_discrete (e / 2 ^ 20) (t / 2 ^ 20)) [
      | yes r ↦ inl (q, r)
      | no r ↦
          inr (elim (ℕ_discrete (e / 2 ^ 26) (t / 2 ^ 26)) [ yes s ↦ inl (r, s) | no s ↦ inr s ])
    ])
  ])
]

-- While the low byte does not come round, no place moves.
pub home-low : (time expire : ℕ) → (time + 1) % 256 ≢ 0 → home (time + 1) expire ≡ home time expire
home-low time expire h =
    let a : (time + 1) / 2 ^ 8 ≡ time / 2 ^ 8 = omega arith in
    let b : (time + 1) / 2 ^ 14 ≡ time / 2 ^ 14 = omega arith in
    let c : (time + 1) / 2 ^ 20 ≡ time / 2 ^ 20 = omega arith in
    let d : (time + 1) / 2 ^ 26 ≡ time / 2 ^ 26 = omega arith in rw (a, b, c, d)

-- Where the time carries into level `i` and no further, only the timers of that level's list
-- for the new digit move.
abbrev pub Carries : ℕ → ℕ → Type 0
Carries i time = ((time + 1) % 2 ^ (8 + i * 6) ≡ 0) × (digit i (time + 1) ≢ 0)

pub home-carry0 :
    (t e : ℕ)
    → Carries 0 t
    → t < e
    → home t e ≢ level 0 (digit 0 (t + 1) - 1)
    → home (t + 1) e ≡ home t e
home-carry0 t e c h ne = elim (home-cases t e) [
  | inl a ↦ absurd (omega arith)
  | inr (inl (a, b)) ↦
      let moved : e / 2 ^ 8 ≢ (t + 1) / 2 ^ 8 =
        λ q. ne (home-level0 t e a b ∙ ap (λ k. level 0 (k % 64 - 1)) q) in
      home-level0 (t + 1) e moved (omega arith) ∙ sym (home-level0 t e a b)
  | inr (inr (inl (a, b))) ↦
      home-level1 (t + 1) e (omega arith) (omega arith) ∙ sym (home-level1 t e a b)
  | inr (inr (inr (inl (a, b)))) ↦
      home-level2 (t + 1) e (omega arith) (omega arith) ∙ sym (home-level2 t e a b)
  | inr (inr (inr (inr a))) ↦ home-level3 (t + 1) e (omega arith) ∙ sym (home-level3 t e a)
]

pub home-carry1 :
    (t e : ℕ)
    → Carries 1 t
    → t < e
    → home t e ≢ level 1 (digit 1 (t + 1) - 1)
    → home (t + 1) e ≡ home t e
home-carry1 t e c h ne = elim (home-cases t e) [
  | inl a ↦ absurd (omega arith)
  | inr (inl (a, b)) ↦ absurd (omega arith)
  | inr (inr (inl (a, b))) ↦
      let moved : e / 2 ^ 14 ≢ (t + 1) / 2 ^ 14 =
        λ q. ne (home-level1 t e a b ∙ ap (λ k. level 1 (k % 64 - 1)) q) in
      home-level1 (t + 1) e moved (omega arith) ∙ sym (home-level1 t e a b)
  | inr (inr (inr (inl (a, b)))) ↦
      home-level2 (t + 1) e (omega arith) (omega arith) ∙ sym (home-level2 t e a b)
  | inr (inr (inr (inr a))) ↦ home-level3 (t + 1) e (omega arith) ∙ sym (home-level3 t e a)
]

pub home-carry2 :
    (t e : ℕ)
    → Carries 2 t
    → t < e
    → home t e ≢ level 2 (digit 2 (t + 1) - 1)
    → home (t + 1) e ≡ home t e
home-carry2 t e c h ne = elim (home-cases t e) [
  | inl a ↦ absurd (omega arith)
  | inr (inl (a, b)) ↦ absurd (omega arith)
  | inr (inr (inl (a, b))) ↦ absurd (omega arith)
  | inr (inr (inr (inl (a, b)))) ↦
      let moved : e / 2 ^ 20 ≢ (t + 1) / 2 ^ 20 =
        λ q. ne (home-level2 t e a b ∙ ap (λ k. level 2 (k % 64 - 1)) q) in
      home-level2 (t + 1) e moved (omega arith) ∙ sym (home-level2 t e a b)
  | inr (inr (inr (inr a))) ↦ home-level3 (t + 1) e (omega arith) ∙ sym (home-level3 t e a)
]

pub home-carry3 :
    (t e : ℕ)
    → Carries 3 t
    → t < e
    → home t e ≢ level 3 (digit 3 (t + 1) - 1)
    → home (t + 1) e ≡ home t e
home-carry3 t e c h ne = elim (home-cases t e) [
  | inl a ↦ absurd (omega arith)
  | inr (inl (a, b)) ↦ absurd (omega arith)
  | inr (inr (inl (a, b))) ↦ absurd (omega arith)
  | inr (inr (inr (inl (a, b)))) ↦ absurd (omega arith)
  | inr (inr (inr (inr a))) ↦
      let moved : e / 2 ^ 26 ≢ (t + 1) / 2 ^ 26 =
        λ q. ne (home-level3 t e a ∙ ap (λ k. level 3 (k % 64 - 1)) q) in
      home-level3 (t + 1) e moved ∙ sym (home-level3 t e a)
]

-- The timers of a near list share the block of the present, and the low byte.
pub in_near : (t e k : ℕ) → home t e ≡ near k → (e / 2 ^ 8 ≡ t / 2 ^ 8) × (e % 256 ≡ k)
in_near t e k h = elim (home-cases t e) [
  | inl a ↦ (a, (let q : near (e % 256) ≡ near k = sym (home-near t e a) ∙ h in cc))
  | inr (inl (a, b)) ↦ absurd (let q = sym (home-level0 t e a b) ∙ h in cc)
  | inr (inr (inl (a, b))) ↦ absurd (let q = sym (home-level1 t e a b) ∙ h in cc)
  | inr (inr (inr (inl (a, b)))) ↦ absurd (let q = sym (home-level2 t e a b) ∙ h in cc)
  | inr (inr (inr (inr a))) ↦ absurd (let q = sym (home-level3 t e a) ∙ h in cc)
]
