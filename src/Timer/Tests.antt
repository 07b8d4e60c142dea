-- ===== src/Timer/Tests.antt =====
-- Runs of the timer, and each theorem at an input.
use dn_server.Common.{
  ℕ, zero, suc, ◌-◌, ◌^◌, ◌≡◌, refl, true, List, [], ◌∷◌, ◌++◌, Option, none, some, arith,
}
use dn_server.Timer.{
  TimerNode, Timer, add_node, add_nodes, timer_add, timer_update, timer_updates, timer_execute,
  timer_shift, shift_loop, Shifted, timeout,
}
use dn_server.Timer.Places.{Place, near, level}
use dn_server.Timer.Due.{IsValid, All, Placed, lists, pending}
use dn_server.Timer.Shift.{shift_loop-wrap}
use dn_server.Timer.Update.{due_within, Runs, timer_updates-Runs}
use dn_server.Timer.Past.{Past, timeout-Past}
use dn_server.Timer.Fire.{timer_fires}

abbrev node : ℕ → TimerNode
node e = record { expire = e; handle = 3; session = e }

-- At time 255, with a timer in the near list 255 + 1 = 256, that is on level 0, and one far off.
abbrev wheel : Timer
wheel = record {
  near = λ k. [];
  t = λ i d. elim i [ zero ↦ elim d [ zero ↦ node 256 ∷ node 258 ∷ [] | suc _ ↦ [] ] | suc _ ↦ [] ];
  time = 255;
  current = 0;
  starttime = 0;
  current_point = 1000;
  origin_point = 1000;
}

wheel-Placed : (p : Place) → All (Placed 255 256 p) (lists wheel p)
wheel-Placed (near k) = tt
wheel-Placed (level zero zero) =
    ((refl, omega arith, omega arith), ((refl, omega arith, omega arith), tt))
wheel-Placed (level zero (suc d)) = tt
wheel-Placed (level (suc i) d) = tt

wheel-IsValid : IsValid 256 wheel
wheel-IsValid = record { small = omega arith; placed = wheel-Placed }

-- Three ticks carry into level 0 and fire both timers.
fired_of : Option (Timer × List TimerNode) → List TimerNode
fired_of none = []
fired_of (some (w, fired)) = fired

ticks_run : fired_of (timer_updates 3 wheel) ≡ node 256 ∷ node 258 ∷ []
unfolding fired_of timer_updates timer_update timer_execute timer_shift shift_loop add_nodes
    add_node
ticks_run = refl

timer_updates-Runs_example :
    (w' : Timer) × (fired : List TimerNode) × (timer_updates 3 wheel ≡ some (w', fired))
    × Runs wheel w' 3 fired
timer_updates-Runs_example = timer_updates-Runs 3 wheel wheel-IsValid (omega arith)

timer_fires_example :
    (w₁ : Timer) × (w₂ : Timer) × (timer_add wheel 7 9 3 ≡ some w₁)
    × (timer_updates 3 w₁
        ≡ some (
          w₂,
          due_within wheel 255 2
              ++ (pending wheel 258 ++ record { expire = 258; handle = 7; session = 9 } ∷ []),
        ))
timer_fires_example = timer_fires wheel 7 9 2 wheel-IsValid (omega arith)

-- A delay of -256 centiseconds at time 256 + 255, of which the instant lies in the first block.
timeout-Past_example :
    Past
      (record wheel { time = 511 })
      7
      9
      256
      (timeout (λ handle. true) (record wheel { time = 511 }) 7 (2 ^ 32 - 256) 9)
timeout-Past_example =
    timeout-Past (λ handle. true) (record wheel { time = 511 }) 7 9 256 (omega arith) (omega arith)
      (omega arith)

shift_loop-wrap_example : shift_loop 100 0 (record wheel { time = 0 }) ≡ Shifted.out_of_fuel
shift_loop-wrap_example = shift_loop-wrap 100 0 (record wheel { time = 0 }) refl
