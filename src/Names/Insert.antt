-- ===== src/Names/Insert.antt =====
-- A new name in the sorted table: `skynet_handle_namehandle`.
use Prim.Native.Nat.{lt}
use native.Mathlib.Decide.{dec_lt, ℕ_discrete}
use dn_server.Common.{ℕ, suc, ◌+◌, ◌-◌, ◌≤◌, ◌<◌, ◌≡◌, ◌≢◌, sym, ap, ◌∙◌, List, arith}
use dn_server.Names.{
  HandleName, NameTable, entry, strcmp, Search, found, missing, search_all, findname, Inserted,
  duplicate, inserted, insert_name, insert_name_before,
}
use dn_server.Names.Arrays.{
  entry-insert_name_before, insert_name_before-IsStored, name_count-insert_name_before,
}
use dn_server.Names.Lookup.{
  IsValid, Locates, Finds, search_all-Locates, findname-Finds, missing-absent,
}

module _ (t : NameTable) (name : List ℕ) (handle b : ℕ) (v : IsValid t)
    (place : Locates t.name name t.name_count (missing b)) where
  abbrev t' : NameTable
  t' = insert_name_before t name handle b

  -- Where each entry of the new table comes from.
  entry_lower : (k : ℕ) → k < b → entry t'.name k ≡ entry t.name k
  entry_lower k h =
      ground (arith, entry-insert_name_before t name handle b k v.stored place.0, place.0)

  entry_new : entry t'.name b ≡ record { name = name; handle = handle }
  entry_new = ground (arith, entry-insert_name_before t name handle b b v.stored place.0, place.0)

  entry_upper : (k : ℕ) → b ≤ k → k < t.name_count → entry t'.name (suc k) ≡ entry t.name k
  entry_upper k h l =
      ground (arith, entry-insert_name_before t name handle b (suc k) v.stored place.0, place.0)

  -- Against an entry that moved up, from the three kinds of entries below it.
  sorted_upper :
      (i k : ℕ)
      → i < suc k
      → b ≤ k
      → k < t.name_count
      → strcmp (entry t'.name i).name (entry t.name k).name ≡ lt
  sorted_upper i k h l m = elim (dec_lt i b) [
    | yes p ↦ rw (entry_lower i p) (v.sorted i k (omega arith) m)
    | no p ↦ elim (ℕ_discrete i b) [
      | yes q ↦ rw (q, entry_new) (place.2 k l m)
      | no q ↦
          let e : i ≡ suc (i - 1) = omega arith in
          rw (e, entry_upper (i - 1) (omega arith) (omega arith))
            (v.sorted (i - 1) k (omega arith) m)
    ]
  ]

  new_sorted :
      (i j : ℕ)
      → i < j
      → j < t.name_count + 1
      → strcmp (entry t'.name i).name (entry t'.name j).name ≡ lt
  new_sorted i j h l = elim (dec_lt j b) [
    | yes p ↦
        rw (entry_lower i (omega arith), entry_lower j p) (v.sorted i j h (omega (arith, place.0)))
    | no p ↦ elim (ℕ_discrete j b) [
      | yes q ↦ rw (q, entry_new, entry_lower i (omega arith)) (place.1 i (omega arith))
      | no q ↦
          let e : j ≡ suc (j - 1) = omega arith in
          rw (e, entry_upper (j - 1) (omega arith) (omega arith))
            (sorted_upper i (j - 1) (omega arith) (omega arith) (omega arith))
    ]
  ]

  insert_name_before-IsValid : IsValid t'
  insert_name_before-IsValid = record {
    stored = insert_name_before-IsStored t name handle b v.stored;
    sorted =
        λ i j h l. new_sorted i j h (omega (arith, name_count-insert_name_before t name handle b));
  }

  abbrev count' : ℕ
  count' = t.name_count + 1

  count-eq : t'.name_count ≡ count'
  count-eq = name_count-insert_name_before t name handle b

  -- The new name is found with its handle.
  findname-inserted : findname t' name ≡ handle
  findname-inserted =
      (findname-Finds t' name insert_name_before-IsValid).0 b (omega (arith, count-eq, place.0))
        (ap (λ (e : HandleName). e.name) entry_new)
      ∙ ap (λ (e : HandleName). e.handle) entry_new

  -- An entry of the new table with another name comes from the old one.
  absent_after :
      (key : List ℕ)
      → name ≢ key
      → ((i : ℕ) → i < t.name_count → (entry t.name i).name ≢ key)
      → (i : ℕ) → i < count'
      → (entry t'.name i).name ≢ key
  absent_after key ne none i h e = elim (dec_lt i b) [
    | yes p ↦ none i (omega (arith, place.0)) (rw (entry_lower i p) at e)
    | no p ↦ elim (ℕ_discrete i b) [
      | yes q ↦ ne (
          sym (ap (λ (x : HandleName). x.name) entry_new)
          ∙ ap (λ k. (entry t'.name k).name) (sym q)
          ∙ e)
      | no q ↦
          let s : i ≡ suc (i - 1) = omega arith in
          none (i - 1) (omega arith) (
            ap (λ (x : HandleName). x.name) (sym (entry_upper (i - 1) (omega arith) (omega arith)))
            ∙ ap (λ k. (entry t'.name k).name) (sym s)
            ∙ e)
    ]
  ]

  -- Every other name keeps its meaning.
  findname-kept : (key : List ℕ) → name ≢ key → findname t' key ≡ findname t key
  findname-kept key ne = kept (search_all t key) (search_all-Locates t key v)
    where
      new : Finds t' key (findname t' key)
      new = findname-Finds t' key insert_name_before-IsValid

      old : Finds t key (findname t key)
      old = findname-Finds t key v

      kept : (r : Search) → Locates t.name key t.name_count r → findname t' key ≡ findname t key
      kept (found m) l = elim (dec_lt m b) [
        | yes p ↦
            new.0 m (omega (arith, count-eq, l.0))
              (ap (λ (x : HandleName). x.name) (entry_lower m p) ∙ l.1)
            ∙ ap (λ (x : HandleName). x.handle) (entry_lower m p)
            ∙ sym (old.0 m l.0 l.1)
        | no p ↦
            let e = entry_upper m (omega arith) l.0 in
            new.0 (suc m) (omega (arith, count-eq, l.0)) (ap (λ (x : HandleName). x.name) e ∙ l.1)
            ∙ ap (λ (x : HandleName). x.handle) e
            ∙ sym (old.0 m l.0 l.1)
      ]
      kept (missing c) l =
          let none = missing-absent t.name key t.name_count c l in
          new.1 (λ i h. absent_after key ne none i (omega (arith, count-eq))) ∙ sym (old.1 none)
      kept Search.out_of_fuel l = absurd l

-- What `skynet_handle_namehandle` does with a table.
abbrev pub Inserts : NameTable → List ℕ → ℕ → Inserted → Type 0
Inserts t name handle duplicate = (i : ℕ) × (i < t.name_count) × ((entry t.name i).name ≡ name)
Inserts t name handle (inserted t') =
    ((i : ℕ) → i < t.name_count → (entry t.name i).name ≢ name)
    × IsValid t'
    × (findname t' name ≡ handle)
    × ((key : List ℕ) → name ≢ key → findname t' key ≡ findname t key)
Inserts t name handle Inserted.out_of_fuel = ⊥

insert-Inserts :
    (t : NameTable) (name : List ℕ) (handle : ℕ) (r : Search)
    → IsValid t
    → Locates t.name name t.name_count r
    → Inserts t name handle (elim r [
      | found mid ↦ duplicate
      | missing begin ↦ inserted (insert_name_before t name handle begin)
      | Search.out_of_fuel ↦ Inserted.out_of_fuel
    ])
insert-Inserts t name handle (found m) v l = (m, l.0, l.1)
insert-Inserts t name handle (missing b) v l = (
  missing-absent t.name name t.name_count b l,
  insert_name_before-IsValid t name handle b v l,
  findname-inserted t name handle b v l,
  findname-kept t name handle b v l,
)
insert-Inserts t name handle Search.out_of_fuel v l = absurd l

-- `skynet_handle_namehandle` on a valid table refuses exactly a name that has an entry; any other
-- name it adds to a table that is valid again, where that name is found with its handle and every
-- other name is found as before.
pub insert_name-Inserts :
    (t : NameTable) (name : List ℕ) (handle : ℕ)
    → IsValid t
    → Inserts t name handle (insert_name t name handle)
unfolding insert_name
insert_name-Inserts t name handle v =
    insert-Inserts t name handle (search_all t name) v (search_all-Locates t name v)
