-- ===== src/Names.antt =====
-- The names of local services in dn/skynet-src/skynet_handle.c: a sorted array that grows.
-- A name is the list of its bytes, without the NUL at the end; `strdup` is the identity.
pub mod Compare
pub mod Arrays
pub mod Lookup
pub mod Insert
pub mod Remove
pub mod Tests
use Prim.Native.Nat.{compare, Ordering, lt, eq, gt}
use dn_server.Common.{
  ℕ, zero, suc, ◌+◌, ◌-◌, ◌*◌, ◌/◌, List, [], ◌∷◌, ltb, leb, ◌==◌, if◌then◌else◌, get_or, set,
  replicate,
}

-- `struct handle_name`
pub record HandleName : Type 0 where
  pub name : List ℕ
  pub handle : ℕ

-- The fields of `struct handle_storage` that hold the names.
pub record NameTable : Type 0 where
  pub name_cap : ℕ
  pub name_count : ℕ
  pub name : List HandleName

-- A cell that `malloc` gives; no search reads one.
abbrev pub no_entry : HandleName
no_entry = record { name = []; handle = 0 }

abbrev pub entry : List HandleName → ℕ → HandleName
entry names i = get_or names i no_entry

-- The sign of the C library's `strcmp`.
pub strcmp : List ℕ → List ℕ → Ordering
strcmp [] [] = eq
strcmp [] (y ∷ ys) = lt
strcmp (x ∷ xs) [] = gt
strcmp (x ∷ xs) (y ∷ ys) = elim (compare x y) [ lt ↦ lt | eq ↦ strcmp xs ys | gt ↦ gt ]

-- How the binary search ends: at an entry, or at the place where the name belongs.
pub data Search : Type 0 where
  found : ℕ → Search
  missing : ℕ → Search
  out_of_fuel : Search

-- The loop `while (begin<=end)` of `skynet_handle_findname` and `_insert_name`. The last argument
-- is `end + 1`, since `end` may be -1.
pub search : List HandleName → List ℕ → ℕ → ℕ → ℕ → Search
search names key zero begin end₁ = out_of_fuel
search names key (suc fuel) begin end₁ =
    let mid = (begin + end₁ - 1) / 2 in
    let go : Search = elim (strcmp (entry names mid).name key) [
      | eq ↦ found mid
      | lt ↦ search names key fuel (mid + 1) end₁
      | gt ↦ search names key fuel begin mid
    ] in
    if ltb begin end₁ then go else missing begin

abbrev pub search_all : NameTable → List ℕ → Search
search_all t key = search t.name key (t.name_count + 1) 0 t.name_count

-- `skynet_handle_findname`
pub findname : NameTable → List ℕ → ℕ
findname t key = elim (search_all t key) [
  | found mid ↦ (entry t.name mid).handle
  | missing begin ↦ 0
  | out_of_fuel ↦ 0
]

-- `for (…; i++) n[i + offset] = name[i];` for the rounds left, from `i` on.
pub copy_names : List HandleName → ℕ → ℕ → ℕ → List HandleName → List HandleName
copy_names names zero i offset n = n
copy_names names (suc rounds) i offset n =
    copy_names names rounds (i + 1) offset (set n (i + offset) (entry names i))

-- `for (…; i--) name[i] = name[i-1];` for the rounds left, from `i` down.
pub shift_names : ℕ → ℕ → List HandleName → List HandleName
shift_names zero i names = names
shift_names (suc rounds) i names = shift_names rounds (i - 1) (set names i (entry names (i - 1)))

-- `_insert_name_before` up to the write of the entry: the array with a free cell at `before`.
pub open_cell : NameTable → ℕ → NameTable
open_cell t before =
    if leb t.name_cap t.name_count
    then record t {
      name_cap = t.name_cap * 2;
      name =
          copy_names t.name (t.name_count - before) before 1
            (copy_names t.name before 0 0 (replicate (t.name_cap * 2) no_entry));
    }
    else record t { name = shift_names (t.name_count - before) t.name_count t.name }

-- `_insert_name_before`
pub insert_name_before : NameTable → List ℕ → ℕ → ℕ → NameTable
insert_name_before t name handle before =
    let t' = open_cell t before in
    record t' {
      name = set t'.name before (record { name = name; handle = handle });
      name_count = t'.name_count + 1;
    }

-- How `_insert_name` ends: NULL for a name in use, or the name in the new table.
pub data Inserted : Type 0 where
  duplicate : Inserted
  inserted : NameTable → Inserted
  out_of_fuel : Inserted

-- `_insert_name`, that is `skynet_handle_namehandle`
pub insert_name : NameTable → List ℕ → ℕ → Inserted
insert_name t name handle = elim (search_all t name) [
  | found mid ↦ duplicate
  | missing begin ↦ inserted (insert_name_before t name handle begin)
  | out_of_fuel ↦ Inserted.out_of_fuel
]

-- The loop over the names in `skynet_handle_retire`, for the rounds left: the array and `j`.
pub compact_names : ℕ → ℕ → ℕ → ℕ → List HandleName → List HandleName × ℕ
compact_names handle zero i j names = (names, j)
compact_names handle (suc rounds) i j names =
    let dead = (entry names i).handle == handle in
    compact_names handle rounds (i + 1) (if dead then j else j + 1)
      (if dead then names else if i == j then names else set names j (entry names i))

-- The part of `skynet_handle_retire` that drops the names of a handle.
pub remove_names : NameTable → ℕ → NameTable
remove_names t handle =
    let (names, j) = compact_names handle t.name_count 0 0 t.name in
    record t { name = names; name_count = j }

-- The names of `skynet_handle_init`
pub init_names : NameTable
init_names = record { name_cap = 2; name_count = 0; name = replicate 2 no_entry }
