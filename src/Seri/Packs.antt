-- ===== src/Seri/Packs.antt =====
-- Which values `_pack_one` packs: those without an unsupported value, nested 32 tables deep at most.
use dn_server.Common.{
  ℕ, suc, ◌+◌, ◌≤◌, ◌≡◌, refl, inl, inr, false, List, [], ◌∷◌, ◌++◌, Option, some, ltb,
  if◌then◌else◌, Bool-cases, arith,
}
use dn_server.Seri.{
  Value, Items, Entries, nil, boolean, integer, number, userdata, string, table, remote, other,
  no_items, item, no_entries, entry, Pushes, wb_nil, wb_array_size, max_depth, rawlen, is_index,
  check_depth, pack_value, pack_items, pack_entries, pack_one, pack_from,
}

-- The depth that is left is enough for the tables in a value, and no unsupported value is in it. The
-- entries of the array part are not packed as entries.
abbrev mutual
  pub IsShallow : ℕ → Value → Type 0
  IsShallow room (table vs es) = ItemsShallow room vs × EntriesShallow room (rawlen vs) es
  IsShallow room other = ⊥
  IsShallow room nil = Unit
  IsShallow room (boolean b) = Unit
  IsShallow room (integer x) = Unit
  IsShallow room (number x) = Unit
  IsShallow room (userdata p) = Unit
  IsShallow room (string s) = Unit
  IsShallow room (remote handle) = Unit

  pub ItemsShallow : ℕ → Items → Type 0
  ItemsShallow room no_items = Unit
  ItemsShallow room (item v vs) = ((r : ℕ) × (room ≡ suc r) × IsShallow r v) × ItemsShallow room vs

  pub EntriesShallow : ℕ → ℕ → Entries → Type 0
  EntriesShallow room size no_entries = Unit
  EntriesShallow room size (entry k v es) =
      (if is_index size k then Unit else (r : ℕ) × (room ≡ suc r) × IsShallow r k × IsShallow r v)
      × EntriesShallow room size es

abbrev Packed : Option Pushes → Type 0
Packed r = (ps : Pushes) × (r ≡ some ps)

check_depth-Packed :
    (depth : ℕ) (r : Option Pushes) → depth ≤ max_depth → Packed r → Packed (check_depth depth r)
check_depth-Packed depth r h (ps, e) =
    (ps, let b : ltb max_depth depth ≡ false = ground arith in rw b e)

mutual
  unfolding pack_value pack_items pack_entries

  pack_value-Packed :
      (v : Value) (depth room : ℕ)
      → depth + room ≡ max_depth
      → IsShallow room v
      → Packed (pack_value depth v)
  pack_value-Packed nil depth room d h = (_, refl)
  pack_value-Packed (boolean b) depth room d h = (_, refl)
  pack_value-Packed (integer x) depth room d h = (_, refl)
  pack_value-Packed (number x) depth room d h = (_, refl)
  pack_value-Packed (userdata p) depth room d h = (_, refl)
  pack_value-Packed (string s) depth room d h = (_, refl)
  pack_value-Packed (remote x) depth room d h = (_, refl)
  pack_value-Packed other depth room d h = absurd h
  pack_value-Packed (table vs es) depth room d (hv, he) =
      let (array, a) = pack_items-Packed vs depth room d hv in
      let (hash, b) = pack_entries-Packed es depth room (rawlen vs) d he in
      (wb_array_size (rawlen vs) ++ (array ++ (hash ++ wb_nil)), rw (a, b) refl)

  pack_items-Packed :
      (vs : Items) (depth room : ℕ)
      → depth + room ≡ max_depth
      → ItemsShallow room vs
      → Packed (pack_items (depth + 1) vs)
  pack_items-Packed no_items depth room d h = (_, refl)
  pack_items-Packed (item v vs) depth room d ((r, more, hv), hs) =
      let (first, a) =
        check_depth-Packed (depth + 1) (pack_value (depth + 1) v) (omega arith)
          (pack_value-Packed v (depth + 1) r (omega arith) hv) in
      let (rest, b) = pack_items-Packed vs depth room d hs in (first ++ rest, rw (a, b) refl)

  pack_entries-Packed :
      (es : Entries) (depth room size : ℕ)
      → depth + room ≡ max_depth
      → EntriesShallow room size es
      → Packed (pack_entries (depth + 1) size es)
  pack_entries-Packed no_entries depth room size d h = (_, refl)
  pack_entries-Packed (entry k v es) depth room size d (h, hs) =
      let (rest, c) = pack_entries-Packed es depth room size d hs in
      elim (Bool-cases (is_index size k)) [
        | inl skipped ↦ (rest, rw skipped c)
        | inr kept ↦
            let (r, more, hk, hv) = rw kept at h in
            let (key, a) =
              check_depth-Packed (depth + 1) (pack_value (depth + 1) k) (omega arith)
                (pack_value-Packed k (depth + 1) r (omega arith) hk) in
            let (value, b) =
              check_depth-Packed (depth + 1) (pack_value (depth + 1) v) (omega arith)
                (pack_value-Packed v (depth + 1) r (omega arith) hv) in
            (key ++ (value ++ rest), rw kept (rw (a, b, c) refl))
      ]

-- All arguments of a call, each at depth 0.
abbrev pub AllShallow : List Value → Type 0
AllShallow [] = Unit
AllShallow (v ∷ vs) = IsShallow max_depth v × AllShallow vs

pub pack_from-Packed : (vs : List Value) → AllShallow vs → (ps : Pushes) × (pack_from vs ≡ some ps)
unfolding pack_from pack_one
pack_from-Packed [] h = (_, refl)
pack_from-Packed (v ∷ vs) (h, hs) =
    let (first, a) =
      check_depth-Packed 0 (pack_value 0 v) (omega arith)
        (pack_value-Packed v 0 max_depth (omega arith) h) in
    let (rest, b) = pack_from-Packed vs hs in (first ++ rest, rw (a, b) refl)
