-- ===== src/Timer/Shift.antt =====
-- `timer_shift`: time passes, and a list of a level is spread over the lists below.
use native.Mathlib.Decide.{ℕ_discrete}
use native.Mathlib.Nat.{zero-mod, zero-div}
use dn_server.Common.{
  ℕ, zero, suc, ◌+◌, ◌-◌, ◌*◌, ◌/◌, ◌%◌, ◌^◌, ◌≤◌, ◌<◌, ◌≡◌, ◌≢◌, refl, sym, ap, ◌∙◌, subst, [],
  ◌++◌, arith, eq→==, ne→==, some, append-nil,
}
use dn_server.Timer.{
  Timer, digit, add_nodes, clear_level, Shifted, shifted, shift_loop, timer_shift,
}
use dn_server.Timer.Places.{
  Place, near, level, home, home-low, home-carry0, home-carry1, home-carry2, home-carry3,
}
use dn_server.Timer.Wheel.{add_nodes-Adds}
use dn_server.Timer.Due.{
  lists, Place-discrete, All, All-map, due, due-elsewhere, Placed, IsValid, pending,
}

-- What a shift does: the time is one more, and every timer that has not expired is still pending.
pub record Shifts (w w' : Timer) : Type 0 where
  pub valid : IsValid (w.time + 1) w'
  pub time : w'.time ≡ w.time + 1
  pub same : (e : ℕ) → w.time + 1 ≤ e → pending w' e ≡ pending w e

module _ (w : Timer) (v : IsValid (w.time + 1) w) (top : w.time + 1 < 2 ^ 32) where
  abbrev later : Timer
  later = record w { time = w.time + 1 }

  low-Shifts : (w.time + 1) % 256 ≢ 0 → Shifts w later
  low-Shifts h = record {
    valid = record {
      small = top;
      placed = λ p.
          All-map (Placed w.time (w.time + 1) p) (Placed (w.time + 1) (w.time + 1) p) (lists w p)
            (λ n x. (home-low w.time n.expire h ∙ x.0, x.1, x.2)) (v.placed p);
    };
    time = refl;
    same = λ e l. ap (λ q. due e (lists w q)) (home-low w.time e h);
  }

  module _ (i c : ℕ)
      (keep : (e : ℕ)
        → w.time + 1 ≤ e
        → home w.time e ≢ level i c
        → home (w.time + 1) e ≡ home w.time e) where
    abbrev cleared : Timer
    cleared = clear_level later i c

    lists-cleared_self : lists cleared (level i c) ≡ []
    lists-cleared_self = ground arith

    lists-cleared_ne : (p : Place) → p ≢ level i c → lists cleared p ≡ lists w p
    lists-cleared_ne (near k) ne = refl
    lists-cleared_ne (level j d) ne = elim (ℕ_discrete j i) [
      | no a ↦ ground arith
      | yes a ↦ let b : d ≢ c = λ q. ne (ap (λ x. level x d) a ∙ ap (level i) q) in ground arith
    ]

    cleared-IsValid : IsValid (w.time + 1) cleared
    cleared-IsValid = record {
      small = top;
      placed = λ p. elim (Place-discrete p (level i c)) [
        | yes q ↦
            subst (λ x. All (Placed (w.time + 1) (w.time + 1) x) (lists cleared x)) (sym q)
              (rw lists-cleared_self tt)
        | no ne ↦ rw (lists-cleared_ne p ne) (
            All-map (Placed w.time (w.time + 1) p) (Placed (w.time + 1) (w.time + 1) p) (lists w p)
              (λ n x. (keep n.expire x.1 (λ q. ne (sym x.0 ∙ q)) ∙ x.0, x.1, x.2)) (v.placed p))
      ];
    }

    -- The timers that expire at `e` are in the cleared list or stay where they are.
    pending-cleared : (e : ℕ) → w.time + 1 ≤ e → pending cleared e ++ due e (w.t i c) ≡ pending w e
    pending-cleared e l = elim (Place-discrete (home w.time e) (level i c)) [
      | no ne ↦
          let gone : due e (w.t i c) ≡ [] = due-elsewhere (w.time + 1) e w (level i c) v ne in
          rw (gone, keep e l ne, lists-cleared_ne (home w.time e) ne) (append-nil (pending w e))
      | yes q ↦
          let gone : pending cleared e ≡ [] =
            elim (Place-discrete (home (w.time + 1) e) (level i c)) [
              | yes r ↦ ap (λ x. due e (lists cleared x)) r ∙ ap (due e) lists-cleared_self
              | no r ↦
                  ap (due e) (lists-cleared_ne (home (w.time + 1) e) r)
                  ∙ due-elsewhere (w.time + 1) e w (home (w.time + 1) e) v (λ x. r (sym x ∙ q))
            ] in
          rw gone (ap (λ x. due e (lists w x)) (sym q))
    ]

    move-Shifts : (w' : Timer) × (add_nodes cleared (w.t i c) ≡ some w') × Shifts w w'
    move-Shifts =
        let ready =
          All-map (Placed w.time (w.time + 1) (level i c))
            (λ n. (w.time + 1 ≤ n.expire) × (w.time + 1 ≤ n.expire) × (n.expire < 2 ^ 32)) (w.t i c)
            (λ n x. (x.1, x.1, x.2)) (v.placed (level i c)) in
        let (w', r, a) = add_nodes-Adds (w.time + 1) cleared (w.t i c) cleared-IsValid ready in
        (
          w',
          r,
          record { valid = a.valid; time = a.time; same = λ e l. a.joins e ∙ pending-cleared e l },
        )

-- A loop that has come to the level to which time carries moves that level's list.
move_loop :
    (fuel i : ℕ) (w w' : Timer)
    → w.time % 2 ^ (8 + i * 6) ≡ 0
    → digit i w.time ≢ 0
    → add_nodes (clear_level w i (digit i w.time - 1)) (w.t i (digit i w.time - 1)) ≡ some w'
    → shift_loop (suc fuel) i w ≡ shifted w'
unfolding shift_loop
move_loop fuel i w w' a b r =
    rw (eq→== (w.time % 2 ^ (8 + i * 6)) 0 a, ne→== (digit i w.time) 0 b, r)

-- A loop passes a level whose digit is 0.
pass_loop :
    (fuel i : ℕ) (w : Timer)
    → w.time % 2 ^ (8 + i * 6) ≡ 0
    → digit i w.time ≡ 0
    → shift_loop (suc fuel) i w ≡ shift_loop fuel (i + 1) w
unfolding shift_loop
pass_loop fuel i w a b = rw (eq→== (w.time % 2 ^ (8 + i * 6)) 0 a, eq→== (digit i w.time) 0 b)

stop_loop :
    (fuel i : ℕ) (w : Timer) → w.time % 2 ^ (8 + i * 6) ≢ 0 → shift_loop (suc fuel) i w ≡ shifted w
unfolding shift_loop
stop_loop fuel i w a = rw (ne→== (w.time % 2 ^ (8 + i * 6)) 0 a)

-- Before the wrap of the time, a shift of a wheel in which nothing has expired ends in bounds; it
-- loses, changes and reorders no timer.
pub timer_shift-Shifts :
    (w : Timer)
    → IsValid (w.time + 1) w
    → w.time + 1 < 2 ^ 32
    → (w' : Timer) × (timer_shift w ≡ shifted w') × Shifts w w'
unfolding timer_shift
timer_shift-Shifts w v top =
    let wrap : (w.time + 1) % 2 ^ 32 ≡ w.time + 1 = omega arith in
    let w₀ = later w v top in
    rw wrap (elim (ℕ_discrete ((w.time + 1) % 2 ^ 8) 0) [
      | no a ↦ (w₀, stop_loop 4 0 w₀ a, low-Shifts w v top a)
      | yes a ↦ elim (ℕ_discrete (digit 0 (w.time + 1)) 0) [
        | no b ↦
            (let (w', r, s) =
                move-Shifts w v top 0 (digit 0 (w.time + 1) - 1)
                  (λ e l ne. home-carry0 w.time e (a, b) (omega arith) ne) in
              (w', move_loop 4 0 w₀ w' a b r, s))
        | yes b ↦ elim (ℕ_discrete (digit 1 (w.time + 1)) 0) [
          | no c ↦
              (let z : (w.time + 1) % 2 ^ 14 ≡ 0 = omega arith in
                let (w', r, s) =
                  move-Shifts w v top 1 (digit 1 (w.time + 1) - 1)
                    (λ e l ne. home-carry1 w.time e (z, c) (omega arith) ne) in
                (w', pass_loop 4 0 w₀ a b ∙ move_loop 3 1 w₀ w' z c r, s))
          | yes c ↦ elim (ℕ_discrete (digit 2 (w.time + 1)) 0) [
            | no d ↦
                (let y : (w.time + 1) % 2 ^ 14 ≡ 0 = omega arith in
                  let z : (w.time + 1) % 2 ^ 20 ≡ 0 = omega arith in
                  let (w', r, s) =
                    move-Shifts w v top 2 (digit 2 (w.time + 1) - 1)
                      (λ e l ne. home-carry2 w.time e (z, d) (omega arith) ne) in
                  (w', pass_loop 4 0 w₀ a b ∙ pass_loop 3 1 w₀ y c ∙ move_loop 2 2 w₀ w' z d r, s))
            | yes d ↦
                (let x : (w.time + 1) % 2 ^ 14 ≡ 0 = omega arith in
                  let y : (w.time + 1) % 2 ^ 20 ≡ 0 = omega arith in
                  let z : (w.time + 1) % 2 ^ 26 ≡ 0 = omega arith in
                  let e3 : digit 3 (w.time + 1) ≢ 0 = omega arith in
                  let (w', r, s) =
                    move-Shifts w v top 3 (digit 3 (w.time + 1) - 1)
                      (λ e l ne. home-carry3 w.time e (z, e3) (omega arith) ne) in
                  (
                    w',
                    pass_loop 4 0 w₀ a b
                        ∙ pass_loop 3 1 w₀ x c
                        ∙ pass_loop 2 2 w₀ y d
                        ∙ move_loop 1 3 w₀ w' z e3 r,
                    s,
                  ))
          ]
        ]
      ]
    ])

-- When the time wraps to 0 the loop of `timer_shift` does not end, whatever the fuel.
pub shift_loop-wrap :
    (fuel i : ℕ) (w : Timer) → w.time ≡ 0 → shift_loop fuel i w ≡ Shifted.out_of_fuel
unfolding shift_loop
shift_loop-wrap zero i w e = refl
shift_loop-wrap (suc fuel) i w e =
    let a : w.time % 2 ^ (8 + i * 6) ≡ 0 =
      ap (λ t. t % 2 ^ (8 + i * 6)) e ∙ zero-mod (2 ^ (8 + i * 6)) in
    let b : digit i w.time ≡ 0 =
      ap (λ t. t / 2 ^ (8 + i * 6) % 64) e ∙ ap (λ t. t % 64) (zero-div (2 ^ (8 + i * 6))) in
    pass_loop fuel i w a b ∙ shift_loop-wrap fuel (i + 1) w e
