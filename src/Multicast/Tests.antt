-- ===== src/Multicast/Tests.antt =====
-- A cast to two receivers, and each theorem at an input.
use dn_server.Common.{◌+◌, ◌*◌, inl, inr, ◌≡◌, refl, [], ◌∷◌, arith, true, false}
use dn_server.Multicast.{
  MulticastMessage, multicast_create, multicast_copy, multicast_dispatch, freed, corrupt, access,
  cast_end, castgroup_end, Casting, cast_begin, send, skip, return, dispatch, Reach, here, next,
}
use dn_server.Multicast.Count.{IsSound, cast-IsSound}
use dn_server.Multicast.Race.{castgroup-corrupt}
use dn_server.Multicast.Group.{MulticastGroup, combine_queue}
use dn_server.Multicast.Group.Sort.{IsLocal}
use dn_server.Multicast.Group.Members.{CombinesTo, combine_queue-CombinesTo}

abbrev greeting : MulticastMessage
greeting = record { ref = 0; msg = 0x7000; sz = 5; source = 9 }

greeting_created : multicast_create 0x7000 5 9 ≡ greeting
unfolding multicast_create
greeting_created = refl

-- One receiver exists, the other does not; the copy is dispatched after the return.
abbrev over : Casting
over = record { memory = freed; dests = []; release = 0; active = false; queued = 0 }

run : Reach cast_end (cast_begin greeting (7 ∷ 8 ∷ [])) over
unfolding cast_begin cast_end access multicast_copy multicast_dispatch
run =
    next (next (next (next here (send 7 (8 ∷ []) refl)) (skip 8 [] refl)) (return refl refl))
      (dispatch 0 true refl)

cast-IsSound_example : IsSound over
cast-IsSound_example = cast-IsSound greeting (7 ∷ 8 ∷ []) {t = over} refl (omega arith) run

castgroup-corrupt_example :
    (t : Casting) × Reach castgroup_end (cast_begin greeting (7 ∷ [])) t × (t.memory ≡ corrupt)
castgroup-corrupt_example = castgroup-corrupt greeting 7 [] refl (omega arith)

-- The members 5 and 9, of which 9 leaves, with 7 that enters twice and 5 that is a member.
abbrev group : MulticastGroup
group = record {
  enter_queue = record { cap = 4; cells = 7 ∷ 5 ∷ 7 ∷ [] };
  leave_queue = record { cap = 4; cells = 9 ∷ [] };
  cap = 2;
  number = 2;
  cells = λ i. 5 + i * 4;
}

entering-IsLocal : IsLocal 0 group.enter_queue.cells
entering-IsLocal x (inl e) = (omega (arith, e), omega arith, omega (arith, e))
entering-IsLocal x (inr (inl e)) = (omega (arith, e), omega arith, omega (arith, e))
entering-IsLocal x (inr (inr (inl e))) = (omega (arith, e), omega arith, omega (arith, e))
entering-IsLocal x (inr (inr (inr h))) = absurd h

leaving-IsLocal : IsLocal 0 group.leave_queue.cells
leaving-IsLocal x (inl e) = (omega (arith, e), omega arith, omega (arith, e))
leaving-IsLocal x (inr h) = absurd h

combine_queue-CombinesTo_example : CombinesTo group (combine_queue group)
combine_queue-CombinesTo_example =
    combine_queue-CombinesTo 0 group (omega arith) entering-IsLocal leaving-IsLocal
      (λ i j l h k. omega arith)
