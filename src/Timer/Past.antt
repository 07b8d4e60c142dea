-- ===== src/Timer/Past.antt =====
-- Negative delays in dn/skynet-src/skynet_timer.c: where `timer_add` leaves its lists.
use dn_server.Common.{
  ℕ, ◌+◌, ◌-◌, ◌/◌, ◌%◌, ◌^◌, ◌<◌, ◌≤◌, ◌≡◌, refl, inl, inr, Bool, true, false, ltb, leb, ◌==◌,
  if◌then◌else◌, Bool-cases, arith,
}
use dn_server.Timer.{
  TimerNode, Timer, same_block, digit, add_node, timer_add, timeout, Timeout, link_near, link_level,
}

abbrev pub past_node : Timer → ℕ → ℕ → ℕ → TimerNode
past_node w handle session d = record { expire = w.time - d; handle = handle; session = session }

-- What `skynet_timeout` does with a delay of `-d`, by where the instant `d` before the time lies.
abbrev pub Past : Timer → ℕ → ℕ → ℕ → Timeout → Type 0
Past w handle session d r =
    let k = w.time % 2 ^ 14 in
    r ≡ (
      if leb d (w.time % 256)
      then Timeout.added (link_near w (w.time % 256 - d) (past_node w handle session d))
      else if ltb (k - d) 256
      then Timeout.out_of_bounds
      else Timeout.added (link_level w 0 ((k - d) / 256 - 1) (past_node w handle session d)))

-- `skynet_timeout` with a delay of `-d` whose instant lies in the level-0 block of the time: an
-- instant of the present near block puts the timer in the near list of that instant; one of the
-- first near block of the level-0 block, where that is not the present one, writes to the cell
-- before the lists of level 0; any other puts the timer in the list of level 0 of its near block.
pub timeout-Past :
    (alive : ℕ → Bool) (w : Timer) (handle session d : ℕ)
    → w.time < 2 ^ 32
    → 0 < d
    → d ≤ w.time % 2 ^ 14
    → Past w handle session d (timeout alive w handle (2 ^ 32 - d) session)
unfolding timeout timer_add add_node
timeout-Past alive w handle session d top pos back =
    let e : (2 ^ 32 - d + w.time) % 2 ^ 32 ≡ w.time - d = omega arith in
    let level : same_block 14 (w.time - d) w.time ≡ true = ground arith in
    let z : (2 ^ 32 - d == 0) ≡ false = ground arith in
    rw (z, e, level)
      (elim (Bool-cases (leb d (w.time % 256))) [
        | inl near ↦
            let same : same_block 8 (w.time - d) w.time ≡ true = ground arith in
            let i : (w.time - d) % 256 ≡ w.time % 256 - d = ground arith in rw (near, same, i) refl
        | inr far ↦
            let other : same_block 8 (w.time - d) w.time ≡ false = ground arith in
            let i : digit 0 (w.time - d) ≡ (w.time % 2 ^ 14 - d) / 256 = ground arith in
            rw (far, other, i)
              (elim (Bool-cases (ltb (w.time % 2 ^ 14 - d) 256)) [
                | inl first ↦
                    let zero_digit : ((w.time % 2 ^ 14 - d) / 256 == 0) ≡ true = ground arith in
                    rw (first, zero_digit) refl
                | inr later ↦
                    let digit_pos : ((w.time % 2 ^ 14 - d) / 256 == 0) ≡ false = ground arith in
                    rw (later, digit_pos) refl
              ])
      ])
