-- ===== src/Names/Arrays.antt =====
-- The cells of the name array after the loops of `_insert_name_before`.
use dn_server.Common.{
  ℕ, zero, suc, ◌+◌, ◌-◌, ◌*◌, ◌≤◌, ◌<◌, ◌≡◌, ◌≢◌, refl, ◌∙◌, inl, inr, List, ltb, leb, ◌==◌,
  if◌then◌else◌, ◌&&◌, arith, length, set, replicate, length-set, get_or-set_self, get_or-set_ne,
  length-replicate, Bool-cases, leb→le,
}
use native.Mathlib.Decide.{ℕ_discrete}
use dn_server.Names.{
  HandleName, NameTable, entry, no_entry, copy_names, shift_names, open_cell, insert_name_before,
}

pub record IsStored (t : NameTable) : Type 0 where
  pub cells : length t.name ≡ t.name_cap
  pub fits : t.name_count ≤ t.name_cap
  pub some_cell : 0 < t.name_cap

pub entry-set :
    (names : List HandleName) (i k : ℕ) (e : HandleName)
    → i < length names
    → entry (set names i e) k ≡ (if k == i then e else entry names k)
entry-set names i k e h = elim (ℕ_discrete k i) [
  | yes same ↦ rw same (get_or-set_self names i e no_entry h ∙ ground arith)
  | no other ↦ get_or-set_ne names i k e no_entry (λ p. other (omega arith)) ∙ ground arith
]

length-copy_names :
    (names : List HandleName) (n i offset : ℕ) (out : List HandleName)
    → length (copy_names names n i offset out) ≡ length out
unfolding copy_names
length-copy_names names zero i offset out = refl
length-copy_names names (suc n) i offset out =
    length-copy_names names n (i + 1) offset (set out (i + offset) (entry names i))
    ∙ length-set out (i + offset) (entry names i)

-- The cells from `i + offset` on hold the copies, and the others are as they were.
entry-copy_names :
    (names : List HandleName) (n i offset k : ℕ) (out : List HandleName)
    → i + offset + n ≤ length out
    → entry (copy_names names n i offset out) k ≡ (
        if leb (i + offset) k && ltb k (i + offset + n)
        then entry names (k - offset)
        else entry out k)
unfolding copy_names
entry-copy_names names zero i offset k out h = ground arith
entry-copy_names names (suc n) i offset k out h =
    entry-copy_names names n (i + 1) offset k (set out (i + offset) (entry names i))
      (omega (arith, length-set out (i + offset) (entry names i)))
    ∙ ground (arith, entry-set out (i + offset) k (entry names i))

length-shift_names :
    (n i : ℕ) (names : List HandleName) → length (shift_names n i names) ≡ length names
unfolding shift_names
length-shift_names zero i names = refl
length-shift_names (suc n) i names =
    length-shift_names n (i - 1) (set names i (entry names (i - 1)))
    ∙ length-set names i (entry names (i - 1))

-- The cells above `i - n` up to `i` hold what stood one below.
entry-shift_names :
    (n i k : ℕ) (names : List HandleName)
    → n ≤ i
    → i < length names
    → entry (shift_names n i names) k
      ≡ (if ltb (i - n) k && leb k i then entry names (k - 1) else entry names k)
unfolding shift_names
entry-shift_names zero i k names h l = ground arith
entry-shift_names (suc n) i k names h l =
    entry-shift_names n (i - 1) k (set names i (entry names (i - 1))) (omega arith)
      (omega (arith, length-set names i (entry names (i - 1))))
    ∙ ground (
      arith,
      entry-set names i k (entry names (i - 1)),
      entry-set names i (k - 1) (entry names (i - 1)),
    )

-- The new array of a full table, and with the entries below `before` in it.
abbrev blank : NameTable → List HandleName
blank t = replicate (t.name_cap * 2) no_entry

abbrev lower : NameTable → ℕ → List HandleName
lower t before = copy_names t.name before 0 0 (blank t)

length-lower : (t : NameTable) (before : ℕ) → length (lower t before) ≡ t.name_cap * 2
length-lower t before =
    length-copy_names t.name before 0 0 (blank t) ∙ length-replicate (t.name_cap * 2) no_entry

-- The array with a free cell: what stood from `before` on stands one higher.
entry-open_cell :
    (t : NameTable) (before k : ℕ)
    → IsStored t
    → before ≤ t.name_count
    → k ≤ t.name_count
    → k ≢ before
    → entry (open_cell t before).name k
      ≡ (if ltb k before then entry t.name k else entry t.name (k - 1))
unfolding open_cell
entry-open_cell t before k v h l ne = elim (Bool-cases (leb t.name_cap t.name_count)) [
  | inl full ↦ rw full (
      entry-copy_names t.name (t.name_count - before) before 1 k (lower t before) (
        omega
          (arith, length-lower t before, v.some_cell, leb→le t.name_cap t.name_count full, v.fits))
      ∙ ground (
        arith,
        entry-copy_names t.name before 0 0 k (blank t),
        length-replicate (t.name_cap * 2) no_entry,
        v.fits,
      ))
  | inr room ↦ rw room (
      entry-shift_names (t.name_count - before) t.name_count k t.name (omega arith)
        (let c = v.cells in ground arith)
      ∙ ground arith)
]

open_cell-IsStored :
    (t : NameTable) (before : ℕ)
    → IsStored t
    → IsStored (open_cell t before) × (t.name_count < (open_cell t before).name_cap)
unfolding open_cell
open_cell-IsStored t before v = elim (Bool-cases (leb t.name_cap t.name_count)) [
  | inl full ↦ rw full (
    record {
      cells =
          length-copy_names t.name (t.name_count - before) before 1 (lower t before)
          ∙ length-lower t before;
      fits = omega arith;
      some_cell = omega arith;
    },
    omega (arith, leb→le t.name_cap t.name_count full),
  )
  | inr room ↦ rw room (
    record {
      cells = length-shift_names (t.name_count - before) t.name_count t.name ∙ v.cells;
      fits = v.fits;
      some_cell = v.some_cell;
    },
    ground arith,
  )
]

name_count-open_cell : (t : NameTable) (before : ℕ) → (open_cell t before).name_count ≡ t.name_count
unfolding open_cell
name_count-open_cell t before = ground arith

pub name_count-insert_name_before :
    (t : NameTable) (name : List ℕ) (handle before : ℕ)
    → (insert_name_before t name handle before).name_count ≡ t.name_count + 1
unfolding insert_name_before
name_count-insert_name_before t name handle before = omega (arith, name_count-open_cell t before)

pub insert_name_before-IsStored :
    (t : NameTable) (name : List ℕ) (handle before : ℕ)
    → IsStored t
    → IsStored (insert_name_before t name handle before)
unfolding insert_name_before
insert_name_before-IsStored t name handle before v =
    let (w, room) = open_cell-IsStored t before v in
    let n = name_count-open_cell t before in
    let l = length-set (open_cell t before).name before (record { name = name; handle = handle }) in
    record { cells = omega arith; fits = omega arith; some_cell = omega arith }

-- An insertion moves what stands from `before` on up by one, and puts the entry there.
pub entry-insert_name_before :
    (t : NameTable) (name : List ℕ) (handle before k : ℕ)
    → IsStored t
    → before ≤ t.name_count
    → k ≤ t.name_count
    → entry (insert_name_before t name handle before).name k ≡ (
        if ltb k before
        then entry t.name k
        else if k == before
        then record { name = name; handle = handle }
        else entry t.name (k - 1))
unfolding insert_name_before
entry-insert_name_before t name handle before k v h l =
    let (w, room) = open_cell-IsStored t before v in
    entry-set (open_cell t before).name before k (record { name = name; handle = handle })
      (omega arith)
    ∙ ground (arith, entry-open_cell t before k v)
