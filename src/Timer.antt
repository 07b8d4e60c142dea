-- ===== src/Timer.antt =====
-- dn/skynet-src/skynet_timer.c: the timing wheel. Time is a count of centiseconds in an `int`, kept
-- as its 32-bit pattern. The body of each LOCK … UNLOCK is one step; no other thread adds a timer
-- while `timer_execute` dispatches. The bit masks are powers of two less one: `(a|m) == (b|m)`
-- compares quotients, `a & m` is a remainder, and `a >> k` a quotient.
pub mod Places
pub mod Due
pub mod Wheel
pub mod Shift
pub mod Update
pub mod Past
pub mod Fire
mod Tests
use dn_server.Common.{
  ℕ, zero, suc, ◌+◌, ◌-◌, ◌*◌, ◌/◌, ◌%◌, ◌^◌, Bool, true, false, List, [], ◌∷◌, ◌++◌, map, Option,
  none, some, ltb, ◌==◌, ◌&&◌, if◌then◌else◌,
}
use dn_server.Mq.{Message}

-- `struct timer_node` with the `struct timer_event` behind it.
pub record TimerNode : Type 0 where
  pub expire : ℕ
  pub handle : ℕ
  pub session : ℕ

-- `struct timer`: 256 near lists, and four levels of 63 lists.
pub record Timer : Type 0 where
  pub near : ℕ → List TimerNode
  pub t : ℕ → ℕ → List TimerNode
  pub time : ℕ
  pub current : ℕ
  pub starttime : ℕ
  pub current_point : ℕ
  pub origin_point : ℕ

abbrev pub time_near : ℕ
time_near = 256

abbrev pub time_level : ℕ
time_level = 64

-- `(a|(2^shift - 1)) == (b|(2^shift - 1))`
abbrev pub same_block : ℕ → ℕ → ℕ → Bool
same_block shift a b = a / 2 ^ shift == b / 2 ^ shift

-- The loop of `add_node` over the masks, for the rounds left: the level.
abbrev pub find_level : ℕ → ℕ → ℕ → ℕ → ℕ → ℕ
find_level zero i shift time current = i
find_level (suc rounds) i shift time current =
    let rest = find_level rounds (i + 1) (shift + 6) time current in
    if same_block shift time current then i else rest

-- `(time>>(TIME_NEAR_SHIFT + i*TIME_LEVEL_SHIFT)) & TIME_LEVEL_MASK`
abbrev pub digit : ℕ → ℕ → ℕ
digit i time = time / 2 ^ (8 + i * 6) % time_level

-- `link` on one of the lists
abbrev pub link_near : Timer → ℕ → TimerNode → Timer
link_near w k node = record w { near = λ j. if j == k then w.near k ++ node ∷ [] else w.near j }

abbrev pub link_level : Timer → ℕ → ℕ → TimerNode → Timer
link_level w i d node = record w {
  t = λ j c. if j == i && c == d then w.t i d ++ node ∷ [] else w.t j c;
}

-- `add_node`. `none` is a write to the cell before a level's lists.
pub add_node : Timer → TimerNode → Option Timer
add_node w node =
    if same_block 8 node.expire w.time
    then some (link_near w (node.expire % time_near) node)
    else (let i = find_level 3 0 14 node.expire w.time in
        if digit i node.expire == 0
        then none
        else some (link_level w i (digit i node.expire - 1) node))

-- `timer_add`
pub timer_add : Timer → ℕ → ℕ → ℕ → Option Timer
timer_add w handle session time =
    add_node w (record { expire = (time + w.time) % 2 ^ 32; handle = handle; session = session })

-- The loop of `timer_shift` over a list that it has cleared.
pub add_nodes : Timer → List TimerNode → Option Timer
add_nodes w [] = some w
add_nodes w (node ∷ nodes) = elim (add_node w node) [ none ↦ none | some w' ↦ add_nodes w' nodes ]

-- `link_clear` on a list of a level
abbrev pub clear_level : Timer → ℕ → ℕ → Timer
clear_level w i d = record w { t = λ j c. if j == i && c == d then [] else w.t j c }

pub data Shifted : Type 0 where
  shifted : Timer → Shifted
  out_of_bounds : Shifted
  out_of_fuel : Shifted

-- The loop of `timer_shift` from level `i` on, with fuel.
pub shift_loop : ℕ → ℕ → Timer → Shifted
shift_loop zero i w = out_of_fuel
shift_loop (suc fuel) i w =
    let again = shift_loop fuel (i + 1) w in
    let move : Shifted =
      elim (add_nodes (clear_level w i (digit i w.time - 1)) (w.t i (digit i w.time - 1))) [
        | none ↦ out_of_bounds
        | some w' ↦ shifted w'
      ] in
    let look = if digit i w.time == 0 then again else move in
    if w.time % 2 ^ (8 + i * 6) == 0 then look else shifted w

-- `timer_shift`. Four levels are enough while the time is not 0.
pub timer_shift : Timer → Shifted
timer_shift w = shift_loop 5 0 (record w { time = (w.time + 1) % 2 ^ 32 })

-- The message that `dispatch_list` pushes to the service of a node.
pub timer_message : TimerNode → ℕ × Message
timer_message node =
    (node.handle, record { source = 0; session = node.session; payload = 0; sz = 1 * 2 ^ 24 })

-- `timer_execute`: the timer, and the nodes that `dispatch_list` gets.
pub timer_execute : Timer → Timer × List TimerNode
timer_execute w =
    let k = w.time % time_near in
    (record w { near = λ j. if j == k then [] else w.near j }, w.near k)

-- `timer_update`: the timer, and the messages in the order of their pushes.
pub timer_update : Timer → Option (Timer × List TimerNode)
timer_update w =
    let (w₁, early) = timer_execute w in
    elim (timer_shift w₁) [
      | shifted w₂ ↦ (let (w₃, due) = timer_execute w₂ in some (w₃, early ++ due))
      | out_of_bounds ↦ none
      | out_of_fuel ↦ none
    ]

-- The loop of `skynet_updatetime`, for the rounds left.
pub timer_updates : ℕ → Timer → Option (Timer × List TimerNode)
timer_updates zero w = some (w, [])
timer_updates (suc rounds) w = elim (timer_update w) [
  | none ↦ none
  | some (w', due) ↦ elim (timer_updates rounds w') [
    | none ↦ none
    | some (w'', later) ↦ some (w'', due ++ later)
  ]
]

-- `skynet_updatetime` at the clock value `cp`.
pub updatetime : ℕ → Timer → Option (Timer × List TimerNode)
updatetime cp w =
    if ltb cp w.current_point
    then some (w, [])
    else if cp == w.current_point
    then some (w, [])
    else (let diff = (cp - w.current_point) % 2 ^ 32 in
        let current = (w.current + diff) % 2 ^ 32 in
        timer_updates diff (record w {
          current_point = cp;
          current = current;
          starttime =
              if ltb current w.current
              then (w.starttime + 0xffffffff / 100) % 2 ^ 32
              else w.starttime;
        }))

-- `skynet_timer_init` at the given seconds, centiseconds and clock value.
pub timer_init : ℕ → ℕ → ℕ → Timer
timer_init sec cs point = record {
  near = λ k. [];
  t = λ i d. [];
  time = 0;
  current = cs;
  starttime = sec;
  current_point = point;
  origin_point = point;
}

-- How `skynet_timeout` ends: -1, the session, or a write out of bounds. The push of a message to
-- the service of a handle is given: it says whether the service exists.
pub data Timeout : Type 0 where
  failed : Timeout
  pushed : ℕ × Message → Timeout
  added : Timer → Timeout
  out_of_bounds : Timeout

-- `skynet_timeout`
pub timeout : (ℕ → Bool) → Timer → ℕ → ℕ → ℕ → Timeout
timeout alive w handle time session =
    if time == 0
    then if alive handle
      then pushed (handle, record { source = 0; session = session; payload = 0; sz = 1 * 2 ^ 24 })
      else failed
    else elim (timer_add w handle session time) [
      | none ↦ Timeout.out_of_bounds
      | some w' ↦ added w'
    ]
