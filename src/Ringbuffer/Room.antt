-- ===== src/Ringbuffer/Room.antt =====
-- How dn/gate/mread.c makes room in the ring buffer.
pub mod Count
pub mod Survives
pub mod Progress
use dn_server.Common.{
  ℕ, zero, suc, Bool, true, false, List, [], ◌∷◌, Option, none, some, ◌==◌, if◌then◌else◌,
}
use dn_server.Ringbuffer.{
  Ringbuffer, Allocation, block, null, failure, ringbuffer_alloc, ringbuffer_collect,
}

-- The loop of `mread_pull` in mread.c that makes room for a block: it closes the connections whose
-- blocks are oldest, one by one, but ends with NULL after its own. A round that collects nothing
-- closes the socket -1, which is `broken`.
pub data Room : Type 0 where
  found : Ringbuffer → ℕ → List ℕ → Room
  own : Ringbuffer → List ℕ → Room
  broken : Room

abbrev pub closing : ℕ → Room → Room
closing id (found rb blk ids) = found rb blk (id ∷ ids)
closing id (own rb ids) = own rb (id ∷ ids)
closing id broken = broken

pub make_room : ℕ → Ringbuffer → ℕ → ℕ → Room
make_room zero rb rd id = broken
make_room (suc fuel) rb rd id =
    let more : Ringbuffer → Room = λ rb'. make_room fuel rb' rd id in
    elim (ringbuffer_alloc rb rd) [
      | block rb' blk ↦ found rb' blk []
      | failure ↦ broken
      | null rb' ↦ elim (ringbuffer_collect rb') [
        | some (rb'', some collect_id) ↦
            closing collect_id (if id == collect_id then own rb'' [] else more rb'')
        | _ ↦ broken
      ]
    ]
