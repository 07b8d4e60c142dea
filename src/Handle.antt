-- ===== src/Handle.antt =====
-- dn/skynet-src/skynet_handle.c: the handles of the local services. The body of each read or write
-- lock is one step. `slot_size` is a power of two, so `handle & (slot_size-1)` is a remainder; a
-- handle below 2 ^ 24 and the harbor above it do not overlap, so `|` adds them.
pub mod Slots
pub mod Move
pub mod Rehash
pub mod Take
pub mod Register
pub mod Retire
pub mod Clear
pub mod RetireAll
pub mod Tests
use dn_server.Common.{
  ℕ, zero, suc, ◌+◌, ◌-◌, ◌*◌, ◌%◌, ◌^◌, Bool, true, false, List, [], ◌∷◌, Option, none, some, ltb,
  leb, ◌==◌, if◌then◌else◌, get_or, set, replicate,
}
use dn_server.Context.{Context, Heap, context_grab, context_release, context_init}
use dn_server.Names.{NameTable, init_names, remove_names}

-- `struct handle_storage`: a slot holds the address of a context or NULL.
pub record HandleStorage : Type 0 where
  pub harbor : ℕ
  pub handle_index : ℕ
  pub slot_size : ℕ
  pub slot : List (Option ℕ)
  pub names : NameTable

abbrev pub default_slot_size : ℕ
default_slot_size = 4

-- `HANDLE_MASK` keeps 24 bits.
abbrev pub handle_bits : ℕ
handle_bits = 2 ^ 24

abbrev pub slot_at : List (Option ℕ) → ℕ → Option ℕ
slot_at slot i = get_or slot i none

-- a write to one context
abbrev pub write : Heap → ℕ → Context → Heap
write heap ctx c a = if a == ctx then c else heap a

-- The inner loop of `skynet_handle_register`: the handle for the first free slot, from `i` on.
pub find_slot : HandleStorage → ℕ → ℕ → Option ℕ
find_slot s zero i = none
find_slot s (suc rounds) i =
    let handle = (i + s.handle_index) % handle_bits in
    elim (slot_at s.slot (handle % s.slot_size)) [
      | none ↦ some handle
      | some ctx ↦ find_slot s rounds (i + 1)
    ]

-- The loop that fills the larger array. `none`: a slot is NULL, or the assert fails.
pub rehash : Heap → ℕ → List (Option ℕ) → List (Option ℕ) → Option (List (Option ℕ))
rehash heap size [] new_slot = some new_slot
rehash heap size (none ∷ slot) new_slot = none
rehash heap size (some ctx ∷ slot) new_slot =
    let hash = (heap ctx).handle % size in
    elim (slot_at new_slot hash) [
      | none ↦ rehash heap size slot (set new_slot hash (some ctx))
      | some other ↦ none
    ]

-- The end of the outer loop's body: twice as many slots.
pub grow : Heap → HandleStorage → Option HandleStorage
grow heap s =
    if leb handle_bits (s.slot_size * 2 - 1)
    then none
    else elim (rehash heap (s.slot_size * 2) s.slot (replicate (s.slot_size * 2) none)) [
      | none ↦ none
      | some slot ↦ some (record s { slot = slot; slot_size = s.slot_size * 2 })
    ]

-- The slot is taken and the context learns its handle. The code writes the handle after the unlock:
-- what another thread reads in between is not modelled.
abbrev pub take_slot : Heap → HandleStorage → ℕ → ℕ → ℕ × HandleStorage × Heap
take_slot heap s ctx handle = (
  handle + s.harbor,
  record s { slot = set s.slot (handle % s.slot_size) (some ctx); handle_index = handle + 1 },
  write heap ctx (context_init (heap ctx) (handle + s.harbor)),
)

-- How `skynet_handle_register` ends.
pub data Registered : Type 0 where
  registered : ℕ × HandleStorage × Heap → Registered
  aborted : Registered
  out_of_fuel : Registered

-- The outer loop, with fuel.
pub register_loop : ℕ → Heap → HandleStorage → ℕ → Registered
register_loop zero heap s ctx = out_of_fuel
register_loop (suc fuel) heap s ctx = elim (find_slot s s.slot_size 0) [
  | some handle ↦ registered (take_slot heap s ctx handle)
  | none ↦ elim (grow heap s) [ none ↦ aborted | some s' ↦ register_loop fuel heap s' ctx ]
]

-- `skynet_handle_register`. After one growth there is a free slot, so two rounds are enough.
pub register : Heap → HandleStorage → ℕ → Registered
register heap s ctx = register_loop 2 heap s ctx

-- The test of `skynet_handle_grab` and `skynet_handle_retire`: the context of a handle.
pub resolve : Heap → HandleStorage → ℕ → Option ℕ
resolve heap s handle = elim (slot_at s.slot (handle % s.slot_size)) [
  | none ↦ none
  | some ctx ↦ if (heap ctx).handle == handle then some ctx else none
]

-- `skynet_handle_grab`
unfoldable pub grab : Heap → HandleStorage → ℕ → Option ℕ × Heap
grab heap s handle = elim (resolve heap s handle) [
  | none ↦ (none, heap)
  | some ctx ↦ (some ctx, write heap ctx (context_grab (heap ctx)))
]

-- `skynet_handle_retire`: the context whose last reference this was, if any, is deleted.
pub retire : Heap → HandleStorage → ℕ → Option ℕ × HandleStorage × Heap
retire heap s handle = elim (resolve heap s handle) [
  | none ↦ (none, s, heap)
  | some ctx ↦
      let (c, deleted) = context_release (heap ctx) in
      (
        if deleted then some ctx else none,
        record s {
          slot = set s.slot (handle % s.slot_size) none;
          names = remove_names s.names handle;
        },
        write heap ctx c,
      )
]

-- The inner loop of `skynet_handle_retireall` over the slots from `i` on, for the rounds left: how
-- many held a context, and the deleted contexts.
pub retire_slots : ℕ → ℕ → Heap → HandleStorage → ℕ × List ℕ × HandleStorage × Heap
retire_slots zero i heap s = (0, [], s, heap)
retire_slots (suc rounds) i heap s = elim (slot_at s.slot i) [
  | none ↦ retire_slots rounds (i + 1) heap s
  | some ctx ↦
      let (deleted, s₁, heap₁) = retire heap s (heap ctx).handle in
      let (n, more, s', heap') = retire_slots rounds (i + 1) heap₁ s₁ in
      (n + 1, elim deleted [ none ↦ more | some c ↦ c ∷ more ], s', heap')
]

-- `skynet_handle_retireall`, where no other thread registers or retires; with fuel.
pub retireall : ℕ → Heap → HandleStorage → Option (HandleStorage × Heap)
retireall zero heap s = none
retireall (suc fuel) heap s =
    let (n, deleted, s', heap') = retire_slots s.slot_size 0 heap s in
    elim n [ zero ↦ some (s', heap') | suc _ ↦ retireall fuel heap' s' ]

-- `skynet_handle_init`
pub handle_init : ℕ → HandleStorage
handle_init harbor = record {
  harbor = harbor % 256 * 2 ^ 24;
  handle_index = 1;
  slot_size = default_slot_size;
  slot = replicate default_slot_size none;
  names = init_names;
}
