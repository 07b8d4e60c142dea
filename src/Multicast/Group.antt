-- ===== src/Multicast/Group.antt =====
-- The groups of dn/skynet-src/skynet_multicast.c. Handles enter and leave by queues, which a cast
-- merges with the sorted members. The members are an array; an index that counts down is one more
-- here than in the source, where it ends at -1.
pub mod Cells
pub mod Enter
pub mod Merge
pub mod Sort
pub mod Leave
pub mod Remove
pub mod Combine
pub mod Members
use dn_server.Common.{
  ℕ, zero, suc, ◌+◌, ◌-◌, ◌*◌, ◌%◌, ◌^◌, Bool, true, false, List, [], ◌∷◌, ◌++◌, Option, none, some,
  ltb, leb, ◌==◌, ◌||◌, if◌then◌else◌, length, get_or, ◌>>=◌,
}

-- `struct array`; `number` is the length of `cells`, the source's `data`.
pub record Array : Type 0 where
  pub cap : ℕ
  pub cells : List ℕ

-- `struct skynet_multicast_group`
pub record MulticastGroup : Type 0 where
  pub enter_queue : Array
  pub leave_queue : Array
  pub cap : ℕ
  pub number : ℕ
  pub cells : ℕ → ℕ

abbrev pub empty_array : Array
empty_array = record { cap = 0; cells = [] }

-- `skynet_multicast_newgroup`
abbrev pub newgroup : MulticastGroup
newgroup = record {
  enter_queue = empty_array;
  leave_queue = empty_array;
  cap = 0;
  number = 0;
  cells = λ _. 0;
}

pub push_array : Array → ℕ → Array
push_array a v = record {
  cap = if leb a.cap (length a.cells) then (if a.cap * 2 == 0 then 4 else a.cap * 2) else a.cap;
  cells = a.cells ++ v ∷ [];
}

pub entergroup : MulticastGroup → ℕ → MulticastGroup
entergroup group handle = record group { enter_queue = push_array group.enter_queue handle }

pub leavegroup : MulticastGroup → ℕ → MulticastGroup
leavegroup group handle = record group { leave_queue = push_array group.leave_queue handle }

-- `compar_uint` is not positive: the difference as an `int`.
abbrev pub compar_uint : ℕ → ℕ → Bool
compar_uint a b = let d = (a + 2 ^ 32 - b) % 2 ^ 32 in d == 0 || leb (2 ^ 31) d

-- `qsort` by `compar_uint`
pub insert : ℕ → List ℕ → List ℕ
insert v [] = v ∷ []
insert v (w ∷ ws) = let rest = insert v ws in if compar_uint v w then v ∷ w ∷ ws else w ∷ rest

pub qsort : List ℕ → List ℕ
qsort [] = []
qsort (v ∷ vs) = insert v (qsort vs)

abbrev pub put : (ℕ → ℕ) → ℕ → ℕ → ℕ → ℕ
put cells i v = λ k. if k == i then v else cells k

-- The first loop of `combine_queue`, over the entering handles from the last down; `none` is no fuel.
pub enter_loop : ℕ → List ℕ → (ℕ → ℕ) → ℕ → ℕ → ℕ → ℕ → Option ((ℕ → ℕ) × ℕ × ℕ)
enter_loop zero q cells i old new last = none
enter_loop (suc fuel) q cells zero old new last = some (cells, old, new)
enter_loop (suc fuel) q cells (suc i) old new last =
    let handle = get_or q i 0 in
    let p = cells (old - 1) in
    let skip = enter_loop fuel q cells i old new last in
    let add = enter_loop fuel q (put cells (new - 1) handle) i old (new - 1) handle in
    let known = enter_loop fuel q cells i old new handle in
    let move = enter_loop fuel q (put cells (new - 1) p) (suc i) (old - 1) (new - 1) 0 in
    if handle == last
    then skip
    else if old == 0
    then add
    else if handle == p
    then known
    else if ltb p handle
    then add
    else move

-- Its second loop: the members that are left.
pub move_members : (ℕ → ℕ) → ℕ → ℕ → (ℕ → ℕ) × ℕ
move_members cells zero new = (cells, new)
move_members cells (suc old) new = move_members (put cells (new - 1) (cells old)) old (new - 1)

-- The loop over the leaving handles: the members, and the two indices and the count after it.
pub leave_loop : ℕ → List ℕ → (ℕ → ℕ) → ℕ → ℕ → ℕ → ℕ → Option ((ℕ → ℕ) × ℕ × ℕ × ℕ)
leave_loop zero q cells size old new count = none
leave_loop (suc fuel) [] cells size old new count = some (cells, old, new, count)
leave_loop (suc fuel) (handle ∷ q) cells size old new count =
    let p = cells old in
    let drop = leave_loop fuel q cells size (old + 1) new (count - 1) in
    let keep = leave_loop fuel (handle ∷ q) (put cells new p) size (old + 1) (new + 1) count in
    let skip = leave_loop fuel q cells size old new count in
    if leb size old
    then some (cells, old, new, 0)
    else if handle == p
    then drop
    else if ltb p handle
    then keep
    else skip

-- The last loop: as many rounds as `count` is above the index.
pub shift_members : ℕ → (ℕ → ℕ) → ℕ → ℕ → ℕ → ℕ
shift_members zero cells old new = cells
shift_members (suc rounds) cells old new =
    shift_members rounds (put cells new (cells old)) (old + 1) (new + 1)

-- The part of `combine_queue` that removes members, which stand from an index on.
pub combine_leave : MulticastGroup → (ℕ → ℕ) → ℕ → ℕ → Option MulticastGroup
combine_leave group cells old new_size =
    let q = qsort group.leave_queue.cells in
    leave_loop (length q + new_size + 1) q cells new_size old 0 (new_size - old) >>= λ left.
    let (cells', old', new', count) = left in
    some (record group {
      leave_queue = record group.leave_queue { cells = [] };
      number = if leb count new' then new' else count;
      cells = shift_members (count - new') cells' old' new';
    })

pub combine_queue : MulticastGroup → Option MulticastGroup
combine_queue group =
    let q = qsort group.enter_queue.cells in
    let new_size = group.number + length q in
    enter_loop (length q + group.number + 1) q group.cells (length q) group.number new_size 0
    >>= λ entered.
        let (cells, old, new) = entered in
        let moved = move_members cells old new in
        combine_leave
          (record group {
            enter_queue = record group.enter_queue { cells = [] };
            cap = if ltb group.cap new_size then new_size else group.cap;
          })
          (moved.0) (moved.1) new_size
