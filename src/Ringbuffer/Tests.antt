-- ===== src/Ringbuffer/Tests.antt =====
-- Runs of the ring buffer, and each theorem at an input.
use dn_server.Common.{
  ℕ, ◌-◌, ◌≡◌, refl, inl, [], ◌∷◌, Option, none, some, ◌==◌, if◌then◌else◌, length, take, drop,
  arith,
}
use dn_server.Ringbuffer.{Ringbuffer, ringbuffer_alloc}
use dn_server.Ringbuffer.Layout.{stop, link, IsValid}
use dn_server.Ringbuffer.Rounds.{Allocates, ringbuffer_alloc-Allocates}
use dn_server.Ringbuffer.Room.{make_room}
use dn_server.Ringbuffer.Room.Progress.{make_room-MakesRoom}
use dn_server.Ringbuffer.Room.Survives.{MakesRoom}
use dn_server.Ringbuffer.Links.{ringbuffer_data, ringbuffer_copy, ringbuffer_yield}
use dn_server.Ringbuffer.Links.Contents.{contents}
use dn_server.Ringbuffer.Links.Data.{lesser, Points, ringbuffer_data-Reads}
use dn_server.Ringbuffer.Links.Copy.{CopiesTo, ringbuffer_copy-Copies}
use dn_server.Ringbuffer.Links.Link.{LinksFrees, ringbuffer_link-free}
use dn_server.Ringbuffer.Links.Grow.{AllHeld}
use dn_server.Ringbuffer.Links.Yield.{ringbuffer_yield-Yields}
use dn_server.Ringbuffer.Links.Behind.{Yields}

-- A block of connection 7 and a free one.
abbrev buffer : Ringbuffer
buffer = record {
  size = 64;
  head = 32;
  blocks = λ i.
      if i == 0
      then record { length = 30; offset = 0; id = some 7; next = none }
      else record { length = 32; offset = 0; id = none; next = none };
  bytes = λ i. i;
}

buffer-IsValid : IsValid buffer
buffer-IsValid = (link (omega arith) tt (stop refl), link (omega arith) tt (stop refl), omega arith)

ringbuffer_alloc-Allocates_example : Allocates buffer 8 (ringbuffer_alloc buffer 8)
ringbuffer_alloc-Allocates_example = ringbuffer_alloc-Allocates buffer 8 buffer-IsValid

-- A size that the free block has no room for.
make_room-MakesRoom_example : MakesRoom buffer 40 3 (make_room 65 buffer 40 3)
make_room-MakesRoom_example =
    make_room-MakesRoom 65 buffer 40 3 buffer-IsValid (omega arith) (omega arith)

-- A message of three and three bytes, of which the first was behind a byte that is read, and a
-- block of four bytes.
abbrev message : Ringbuffer
message = record {
  size = 64;
  head = 60;
  blocks = λ i.
      if i == 0
      then record { length = 20; offset = 1; id = some 7; next = some 20 }
      else if i == 20
      then record { length = 19; offset = 0; id = some 7; next = none }
      else record { length = 20; offset = 0; id = none; next = none };
  bytes = λ i. i;
}

message_bytes : contents message 0 (20 ∷ []) ≡ 17 ∷ 18 ∷ 19 ∷ 36 ∷ 37 ∷ 38 ∷ []
message_bytes = refl

ringbuffer_data-Reads_example :
    (ptr : Option ℕ) × (ringbuffer_data message 0 2 1
      ≡ some (lesser 2 (length (contents message 0 (20 ∷ [])) - 1), ptr))
    × Points message 2 (take 2 (drop 1 (contents message 0 (20 ∷ [])))) ptr
ringbuffer_data-Reads_example =
    ringbuffer_data-Reads message 0 (20 ∷ []) 2 1 (refl, refl, refl) (omega arith) (omega arith)

ringbuffer_copy-Copies_example : CopiesTo message 0 (20 ∷ []) 1 40 (ringbuffer_copy message 0 1 40)
ringbuffer_copy-Copies_example =
    ringbuffer_copy-Copies message 0 (20 ∷ []) 1 40 (refl, refl, refl) (omega arith) (omega arith)
      (omega arith) (inl (omega arith), tt)

ringbuffer_yield-Yields_example : Yields message 0 (20 ∷ []) 4 (ringbuffer_yield message 0 4)
ringbuffer_yield-Yields_example =
    ringbuffer_yield-Yields message 0 (20 ∷ []) 4 (refl, refl, refl)
      (((λ e. omega (arith, e)), tt), (tt, tt)) (omega arith)

message-AllHeld : AllHeld message.blocks 7 (0 ∷ 20 ∷ [])
message-AllHeld = (omega arith, refl, (omega arith, refl, tt))

ringbuffer_link-free_example : LinksFrees message 7 0 40 (20 ∷ [])
ringbuffer_link-free_example =
    ringbuffer_link-free message 7 0 40 (20 ∷ []) (refl, refl, refl)
      (((λ e. omega (arith, e)), tt), (tt, tt)) message-AllHeld
      ((λ e. omega (arith, e)), ((λ e. omega (arith, e)), tt)) refl refl (omega arith) (omega arith)
