-- ===== src/Timer/Fire.antt =====
-- When a timer fires: `skynet_timeout` and `skynet_updatetime` together.
use native.Mathlib.Decide.{dec_lt}
use dn_server.Common.{
  ℕ, zero, suc, ◌+◌, ◌-◌, ◌/◌, ◌%◌, ◌^◌, ◌<◌, ◌≡◌, refl, sym, ap, ◌∙◌, subst, [], ◌∷◌, ◌++◌,
  if◌then◌else◌, arith, ne→==, some, append-nil, append_assoc, ltb, ge→ltb,
}
use dn_server.Timer.{TimerNode, Timer, timer_add, timer_updates, updatetime}
use dn_server.Timer.Wheel.{Adds}
use dn_server.Timer.Due.{IsValid, pending, due}
use dn_server.Timer.Update.{due_within, timer_updates-Runs, timer_add-Adds}

due_within-snoc :
    (w : Timer) (t n : ℕ) → due_within w t (suc n) ≡ due_within w t n ++ pending w (t + n + 1)
due_within-snoc w t zero =
    let e : t + 0 + 1 ≡ t + 1 = omega arith in
    append-nil (pending w (t + 1)) ∙ ap (pending w) (sym e)
due_within-snoc w t (suc n) =
    let e : t + 1 + n + 1 ≡ t + suc n + 1 = omega arith in
    ap (◌++◌ (pending w (t + 1)))
      (due_within-snoc w (t + 1) n ∙ ap (λ x. due_within w (t + 1) n ++ pending w x) e)
    ∙ sym (append_assoc (pending w (t + 1)) (due_within w (t + 1) n) (pending w (t + suc n + 1)))

due_within-before :
    (w w' : Timer) (t n : ℕ)
    → ((e : ℕ) → e < t + n + 1 → pending w' e ≡ pending w e)
    → due_within w' t n ≡ due_within w t n
due_within-before w w' t zero h = refl
due_within-before w w' t (suc n) h =
    ap (λ x. x ++ due_within w' (t + 1) n) (h (t + 1) (omega arith))
    ∙ ap (◌++◌ (pending w (t + 1))) (due_within-before w w' (t + 1) n (λ e l. h e (omega arith)))

module _ (w : Timer) (handle session d : ℕ) (v : IsValid (w.time + 1) w)
    (top : w.time + suc d < 2 ^ 32) where
  abbrev new_timer : TimerNode
  new_timer = record { expire = w.time + suc d; handle = handle; session = session }

  due_with_new :
      (w₁ : Timer)
      → Adds (w.time + 1) w (new_timer ∷ []) w₁
      → due_within w₁ w₁.time (suc d)
        ≡ due_within w w.time d ++ (pending w (w.time + suc d) ++ new_timer ∷ [])
  due_with_new w₁ a =
      let e : w.time + d + 1 ≡ w.time + suc d = omega arith in
      let own : due (w.time + suc d) (new_timer ∷ []) ≡ new_timer ∷ [] = ground arith in
      ap (λ t. due_within w₁ t (suc d)) a.time
      ∙ due_within-snoc w₁ w.time d
      ∙ ap (λ x. x ++ pending w₁ (w.time + d + 1))
          (due_within-before w w₁ w.time d (λ k l.
            let other : due k (new_timer ∷ []) ≡ [] = ground arith in
            a.joins k ∙ ap (◌++◌ (pending w k)) other ∙ append-nil (pending w k)))
      ∙ ap (◌++◌ (due_within w w.time d)) (
          ap (pending w₁) e ∙ a.joins (w.time + suc d) ∙ ap (◌++◌ (pending w (w.time + suc d))) own)

  -- A timer added with a positive delay `suc d` to a wheel in which nothing has expired, before
  -- the wrap of the time, fires in tick `suc d` and in none before: the `suc d` ticks fire the
  -- older timers of the first `d` instants, then those of its own instant, then it.
  pub timer_fires :
      (w₁ : Timer) × (w₂ : Timer) × (timer_add w handle session (suc d) ≡ some w₁)
      × (timer_updates (suc d) w₁
          ≡ some (w₂, due_within w w.time d ++ (pending w (w.time + suc d) ++ new_timer ∷ [])))
  timer_fires =
      let (w₁, r, a) = timer_add-Adds w handle session (suc d) v (omega arith) top in
      let v₁ : IsValid (w₁.time + 1) w₁ = subst (λ t. IsValid (t + 1) w₁) (sym a.time) a.valid in
      let (w₂, fired, q, b) = timer_updates-Runs (suc d) w₁ v₁ (omega (arith, a.time)) in
      (w₁, w₂, r, q ∙ ap (λ x. some (w₂, x)) (b.fires ∙ due_with_new w₁ a))

-- The wheel with the clock moved on, before the ticks.
abbrev ticking : ℕ → Timer → Timer
ticking cp w =
    let diff = cp - w.current_point in
    let current = (w.current + diff) % 2 ^ 32 in
    record w {
      current_point = cp;
      current = current;
      starttime =
          if ltb current w.current then (w.starttime + 0xffffffff / 100) % 2 ^ 32 else w.starttime;
    }

-- `skynet_updatetime` does nothing where the clock has not moved or went back; else it fires the
-- timers of as many instants as the clock has moved, before the wrap of the time and of the clock
-- difference.
updatetime-fires :
    (w : Timer) (cp : ℕ)
    → IsValid (w.time + 1) w
    → w.time + (cp - w.current_point) < 2 ^ 32
    → (w' : Timer) × (updatetime cp w ≡ some (w', due_within w w.time (cp - w.current_point)))
      × (w'.time ≡ w.time + (cp - w.current_point))
      × IsValid (w'.time + 1) w'
unfolding updatetime
updatetime-fires w cp v top = elim (dec_lt w.current_point cp) [
  | no still ↦
      let z : cp - w.current_point ≡ 0 = omega arith in
      let r : updatetime cp w ≡ some (w, []) = unfold updatetime in ground arith in
      (w, r ∙ ap (λ n. some (w, due_within w w.time n)) (sym z), omega arith, v)
  | yes moved ↦
      let diff = cp - w.current_point in
      let z : diff % 2 ^ 32 ≡ diff = omega arith in
      let w₀ = ticking cp w in
      let v₀ : IsValid (w₀.time + 1) w₀ = record { small = v.small; placed = v.placed } in
      let (w', fired, r, a) = timer_updates-Runs diff w₀ v₀ top in
      let same = due_within-before w w₀ w.time diff (λ e l. refl) in
      (
        w',
        rw
            (
              ge→ltb cp w.current_point (omega arith),
              ne→== cp w.current_point (omega arith),
              z,
              updatetime,
            )
            (r ∙ ap (λ x. some (w', x)) (a.fires ∙ same)),
        a.time,
        a.valid,
      )
]
