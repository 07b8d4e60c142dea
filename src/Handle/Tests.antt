-- ===== src/Handle/Tests.antt =====
-- Runs of the handle storage, and each theorem at an input.
use dn_server.Common.{ℕ, zero, suc, ◌≡◌, ◌≢◌, refl, [], ◌∷◌, none, some, arith, false}
use dn_server.Context.{Context, Heap, context_init}
use dn_server.Names.Tests.{two_names, two_names-IsValid}
use dn_server.Handle.{
  HandleStorage, slot_at, write, find_slot, retire, retireall, register, register_loop, grow,
  rehash, registered,
}
use dn_server.Handle.Slots
use dn_server.Handle.Register.{Registers, register-Registers}
use dn_server.Handle.Retire.{Retires, retire-Retires}
use dn_server.Handle.RetireAll.{RetiresAll, retireall-RetiresAll}

abbrev pub idle : Context
idle = record { handle = 0; ref = 2; session_id = 0; forward = 0; init = false; endless = false }

-- Contexts 101 to 104 have the handles 1 to 4 of harbor 0.
abbrev pub heap : Heap
heap =
    write
      (write (write (write (λ _. idle) 101 (context_init idle 1)) 102 (context_init idle 2)) 103
        (context_init idle 3))
      104 (context_init idle 4)

abbrev pub full : HandleStorage
full = record {
  harbor = 0;
  handle_index = 5;
  slot_size = 4;
  slot = some 104 ∷ some 101 ∷ some 102 ∷ some 103 ∷ [];
  names = two_names;
}

full-IsHashed : Slots.IsHashed heap 4 full.slot
full-IsHashed zero c e = ground arith
full-IsHashed (suc zero) c e = ground arith
full-IsHashed (suc (suc zero)) c e = ground arith
full-IsHashed (suc (suc (suc zero))) c e = ground arith
full-IsHashed (suc (suc (suc (suc i)))) c e = ground arith

full-IsValid : Slots.IsValid heap full
full-IsValid = record {
  exponent = 2;
  power = refl;
  small = omega arith;
  cells = refl;
  hashed = full-IsHashed;
  harbor_high = refl;
}

pub without_new : (i : ℕ) → slot_at full.slot i ≢ some 105
without_new zero e = ground arith
without_new (suc zero) e = ground arith
without_new (suc (suc zero)) e = ground arith
without_new (suc (suc (suc zero))) e = ground arith
without_new (suc (suc (suc (suc i)))) e = ground arith

-- The storage grows, and the new context gets handle 5.
register_grows :
    register heap full 105
    ≡ registered (
      5,
      record full {
        handle_index = 6;
        slot_size = 8;
        slot = none ∷ some 101 ∷ some 102 ∷ some 103 ∷ some 104 ∷ some 105 ∷ none ∷ none ∷ [];
      },
      write heap 105 (context_init idle 5),
    )
unfolding register register_loop find_slot grow rehash
register_grows = refl

register-Registers_example : Registers heap full 105 (register heap full 105)
register-Registers_example = register-Registers heap full 105 full-IsValid without_new

retire-Retires_example : Retires heap full 2 (retire heap full 2)
retire-Retires_example = retire-Retires heap full 2 full-IsValid two_names-IsValid

retireall-RetiresAll_example :
    (s' : HandleStorage) × (heap' : Heap) × (retireall 2 heap full ≡ some (s', heap'))
    × RetiresAll heap full heap' s'
retireall-RetiresAll_example = retireall-RetiresAll 0 heap full full-IsValid
