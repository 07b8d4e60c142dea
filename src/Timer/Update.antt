-- ===== src/Timer/Update.antt =====
-- A tick of the timer, and a run of ticks: each timer fires once, at its time, in order.
use native.Mathlib.Decide.{ℕ_discrete}
use dn_server.Common.{
  ℕ, zero, suc, ◌+◌, ◌%◌, ◌^◌, ◌≤◌, ◌<◌, ◌≡◌, ◌≢◌, refl, sym, ap, ◌∙◌, subst, List, [], ◌∷◌, ◌++◌,
  ◌==◌, if◌then◌else◌, arith, some,
}
use dn_server.Timer.{
  TimerNode, Timer, timer_add, timer_execute, timer_update, timer_updates, timer_init,
}
use dn_server.Timer.Places.{Place, near, level, home, home-near, in_near}
use dn_server.Timer.Wheel.{Adds, add_node-Adds}
use dn_server.Timer.Due.{
  lists, Place-discrete, All, All-map, due, due-All, due_none, Placed, IsValid, pending,
}
use dn_server.Timer.Shift.{timer_shift-Shifts}

-- The wheel after `timer_execute`.
abbrev executed : Timer → Timer
executed w = record w { near = λ j. if j == w.time % 256 then [] else w.near j }

abbrev now : Timer → Place
now w = near (w.time % 256)

module _ (w : Timer) (v : IsValid w.time w) where
  home-now : home w.time w.time ≡ now w
  home-now = home-near w.time w.time refl

  is_now : (e : ℕ) → home w.time e ≡ now w → e ≡ w.time
  is_now e h = (let (a, b) = in_near w.time e (w.time % 256) h in omega arith)

  -- The near list of the present holds just what expires now.
  All-due : All (λ n. n.expire ≡ w.time) (w.near (w.time % 256))
  All-due =
      All-map (Placed w.time w.time (now w)) (λ n. n.expire ≡ w.time) (w.near (w.time % 256))
        (λ n x. is_now n.expire x.0) (v.placed (now w))

  executed-pending : w.near (w.time % 256) ≡ pending w w.time
  executed-pending =
      sym (due-All w.time (w.near (w.time % 256)) All-due)
      ∙ ap (λ p. due w.time (lists w p)) (sym home-now)

  lists-executed_ne : (p : Place) → p ≢ now w → lists (executed w) p ≡ lists w p
  lists-executed_ne (near k) ne = let d : k ≢ w.time % 256 = λ q. ne (ap near q) in ground arith
  lists-executed_ne (level i d) ne = refl

  after : (e : ℕ) (p : Place) → p ≢ now w → home w.time e ≡ p → w.time ≤ e → w.time + 1 ≤ e
  after e p ne h l = elim (ℕ_discrete e w.time) [
    | yes q ↦ absurd (ne (sym h ∙ ap (home w.time) q ∙ home-now))
    | no q ↦ omega arith
  ]

  executed-IsValid : IsValid (w.time + 1) (executed w)
  executed-IsValid = record {
    small = v.small;
    placed = λ p. elim (Place-discrete p (now w)) [
      | yes q ↦
          subst (λ x. All (Placed w.time (w.time + 1) x) (lists (executed w) x)) (sym q)
            (let none_left : lists (executed w) (now w) ≡ [] = ground arith in rw none_left tt)
      | no ne ↦ rw (lists-executed_ne p ne) (
          All-map (Placed w.time w.time p) (Placed w.time (w.time + 1) p) (lists w p)
            (λ n x. (x.0, after n.expire p ne x.0 x.1, x.2)) (v.placed p))
    ];
  }

  executed-same : (e : ℕ) → w.time + 1 ≤ e → pending (executed w) e ≡ pending w e
  executed-same e l =
      ap (due e)
        (lists-executed_ne (home w.time e) (λ q. absurd (let r = is_now e q in omega arith)))

-- What a tick does: the timers of the present and of the next instant fire, in the order of their
-- addition; every later timer stays pending, and nothing has expired.
pub record Ticks (w w' : Timer) (fired : List TimerNode) : Type 0 where
  pub time : w'.time ≡ w.time + 1
  pub valid : IsValid (w'.time + 1) w'
  pub fires : fired ≡ pending w w.time ++ pending w (w.time + 1)
  pub same : (e : ℕ) → w'.time + 1 ≤ e → pending w' e ≡ pending w e

-- `timer_update` before the wrap of the time ends in bounds: it fires the timers of the present
-- and of the next instant in the order of their addition, and keeps all others pending.
timer_update-Ticks :
    (w : Timer)
    → IsValid w.time w
    → w.time + 1 < 2 ^ 32
    → (w' : Timer) × (fired : List TimerNode) × (timer_update w ≡ some (w', fired))
      × Ticks w w' fired
unfolding timer_update timer_execute
timer_update-Ticks w v top =
    let (w₂, r, s) = timer_shift-Shifts (executed w) (executed-IsValid w v) top in
    let v₂ : IsValid w₂.time w₂ = subst (λ t. IsValid t w₂) (sym s.time) s.valid in
    (
      executed w₂,
      w.near (w.time % 256) ++ w₂.near (w₂.time % 256),
      rw (r, timer_update),
      record {
        time = s.time;
        valid = executed-IsValid w₂ v₂;
        fires =
            ap (λ x. x ++ w₂.near (w₂.time % 256)) (executed-pending w v)
            ∙ ap (λ x. pending w w.time ++ x)
                (executed-pending w₂ v₂
                  ∙ ap (pending w₂) s.time
                  ∙ s.same (w.time + 1) (omega arith)
                  ∙ executed-same w v (w.time + 1) (omega arith));
        same = λ e l.
            executed-same w₂ v₂ e l
            ∙ s.same e (omega (arith, s.time))
            ∙ executed-same w v e (omega (arith, s.time));
      },
    )

-- The timers that expire in the `n` instants after `t`, the earlier instants first.
abbrev pub due_within : Timer → ℕ → ℕ → List TimerNode
due_within w t zero = []
due_within w t (suc n) = pending w (t + 1) ++ due_within w (t + 1) n

due_within-same :
    (w w' : Timer) (t n : ℕ)
    → ((e : ℕ) → t + 1 ≤ e → pending w' e ≡ pending w e)
    → due_within w' t n ≡ due_within w t n
due_within-same w w' t zero h = refl
due_within-same w w' t (suc n) h =
    ap (λ x. x ++ due_within w' (t + 1) n) (h (t + 1) (omega arith))
    ∙ ap (◌++◌ (pending w (t + 1))) (due_within-same w w' (t + 1) n (λ e l. h e (omega arith)))

-- What a run of `n` ticks does to a wheel in which nothing has expired.
pub record Runs (w w' : Timer) (n : ℕ) (fired : List TimerNode) : Type 0 where
  pub time : w'.time ≡ w.time + n
  pub valid : IsValid (w'.time + 1) w'
  pub fires : fired ≡ due_within w w.time n
  pub same : (e : ℕ) → w'.time + 1 ≤ e → pending w' e ≡ pending w e

weaken : (w : Timer) → IsValid (w.time + 1) w → IsValid w.time w
weaken w v = record {
  small = v.small;
  placed = λ p.
      All-map (Placed w.time (w.time + 1) p) (Placed w.time w.time p) (lists w p)
        (λ n x. (x.0, omega (arith, x.1), x.2)) (v.placed p);
}

nothing_now : (w : Timer) → IsValid (w.time + 1) w → pending w w.time ≡ []
nothing_now w v = due_none w.time (lists w (home w.time w.time)) (
    All-map (Placed w.time (w.time + 1) (home w.time w.time)) (λ n. n.expire ≢ w.time)
      (lists w (home w.time w.time)) (λ n x. omega (arith, x.1)) (v.placed (home w.time w.time)))

-- `n` ticks of a wheel in which nothing has expired, before the wrap of the time, end in bounds:
-- they fire exactly the timers of the next `n` instants, the earlier first and those of one
-- instant in the order of their addition, and keep all later timers pending.
pub timer_updates-Runs :
    (n : ℕ) (w : Timer)
    → IsValid (w.time + 1) w
    → w.time + n < 2 ^ 32
    → (w' : Timer) × (fired : List TimerNode) × (timer_updates n w ≡ some (w', fired))
      × Runs w w' n fired
unfolding timer_updates
timer_updates-Runs zero w v top =
    (w, [], refl, record { time = omega arith; valid = v; fires = refl; same = λ e l. refl })
timer_updates-Runs (suc n) w v top =
    let (w₁, first, r, a) = timer_update-Ticks w (weaken w v) (omega arith) in
    let (w₂, rest, q, b) = timer_updates-Runs n w₁ a.valid (omega (arith, a.time)) in
    (
      w₂,
      first ++ rest,
      ground (arith, r, q),
      record {
        time = omega (arith, a.time, b.time);
        valid = b.valid;
        fires =
            ap (λ x. x ++ rest) (a.fires ∙ ap (λ x. x ++ pending w (w.time + 1)) (nothing_now w v))
            ∙ ap (◌++◌ (pending w (w.time + 1))) (
                b.fires
                ∙ ap (λ t. due_within w₁ t n) a.time
                ∙ due_within-same w w₁ (w.time + 1) n (λ e l. a.same e (omega (arith, a.time))));
        same = λ e l. b.same e l ∙ a.same e (omega (arith, a.time, b.time));
      },
    )

-- `timer_add` of a positive delay that does not wrap stays in bounds: the timer joins those of its
-- instant at the end, and nothing else changes.
pub timer_add-Adds :
    (w : Timer) (handle session delay : ℕ)
    → IsValid (w.time + 1) w
    → 0 < delay
    → w.time + delay < 2 ^ 32
    → (w' : Timer) × (timer_add w handle session delay ≡ some w')
      × Adds
          (w.time + 1)
          w
          (record { expire = w.time + delay; handle = handle; session = session } ∷ [])
          w'
unfolding timer_add
timer_add-Adds w handle session delay v pos top =
    let e : (delay + w.time) % 2 ^ 32 ≡ w.time + delay = omega arith in
    rw e (
      add_node-Adds (w.time + 1) w
        (record { expire = w.time + delay; handle = handle; session = session }) v (omega arith)
        (omega arith) (omega arith))

timer_init-IsValid : (sec cs point : ℕ) → IsValid 1 (timer_init sec cs point)
unfolding timer_init
timer_init-IsValid sec cs point = record { small = omega arith; placed = empty }
  where
    empty : (p : Place) → All (Placed 0 1 p) (lists (timer_init sec cs point) p)
    empty (near k) = tt
    empty (level i d) = tt
