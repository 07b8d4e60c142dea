-- ===== src/Names/Remove.antt =====
-- The names of a retired handle leave the table: the loop of `skynet_handle_retire`.
use Prim.Native.Nat.{lt}
use native.Mathlib.Decide.{ℕ_discrete}
use dn_server.Common.{
  ℕ, zero, suc, ◌+◌, ◌≤◌, ◌<◌, ◌≡◌, ◌≢◌, refl, sym, ap, ◌∙◌, subst, inl, inr, List, ◌==◌,
  if◌then◌else◌, arith, length, Bool-cases, set, length-set,
}
use dn_server.Names.{
  HandleName, NameTable, entry, strcmp, compact_names, remove_names, findname, search_all, Search,
  found, missing,
}
use dn_server.Names.Arrays.{entry-set}
use dn_server.Names.Lookup.{
  IsSorted, IsValid, Locates, findname-Finds, search_all-Locates, missing-absent, name_unique,
}

-- Of the first `i` entries those without the handle stand in the first `j` cells, in their order,
-- and the cells from `i` on are as they were.
record Kept (handle : ℕ) (old : List HandleName) (i j : ℕ) (names : List HandleName) : Type 0 where
  le : j ≤ i
  cells : length names ≡ length old
  rest : (k : ℕ) → i ≤ k → entry names k ≡ entry old k
  come_from :
      (k : ℕ)
      → k < j
      → (m : ℕ) × (m < i) × (entry names k ≡ entry old m) × ((entry old m).handle ≢ handle)
  go_to :
      (m : ℕ)
      → m < i
      → (entry old m).handle ≢ handle
      → (k : ℕ) × (k < j) × (entry names k ≡ entry old m)
  sorted : IsSorted names j

module _ (handle : ℕ) (old : List HandleName) (i j : ℕ) (names : List HandleName)
    (s : Kept handle old i j names) (l : i < length old) where
  abbrev names' : List HandleName
  names' = if i == j then names else set names j (entry names i)

  entry-names' : (k : ℕ) → entry names' k ≡ (if k == j then entry old i else entry names k)
  entry-names' k =
      let r : entry names i ≡ entry old i = s.rest i (omega arith) in
      let w = entry-set names j k (entry names i) (omega (arith, s.cells, s.le)) in
      ground (arith, r, w)

  Kept-dead : (entry old i).handle ≡ handle → Kept handle old (i + 1) j names
  Kept-dead dead = record {
    le = omega (arith, s.le);
    cells = s.cells;
    rest = λ k h. s.rest k (omega arith);
    come_from = λ k h. (let (m, a, b, c) = s.come_from k h in (m, omega arith, b, c));
    go_to = λ m h ne. elim (ℕ_discrete m i) [
      | yes e ↦ absurd (ne (ap (λ x. (entry old x).handle) e ∙ dead))
      | no ne' ↦ s.go_to m (omega arith) ne
    ];
    sorted = s.sorted;
  }

  Kept-alive :
      ((a b : ℕ) → a < b → b < i + 1 → strcmp (entry old a).name (entry old b).name ≡ lt)
      → (entry old i).handle ≢ handle
      → Kept handle old (i + 1) (j + 1) names'
  Kept-alive order alive = record {
    le = omega (arith, s.le);
    cells = ground (arith, length-set names j (entry names i), s.cells);
    rest = λ k h. ground (arith, entry-names' k, s.rest k, s.le);
    come_from = λ k h. elim (ℕ_discrete k j) [
      | yes e ↦ (i, omega arith, ground (arith, entry-names' k), alive)
      | no ne ↦
          (let (m, a, b, c) = s.come_from k (omega arith) in
            (m, omega arith, ground (arith, entry-names' k, b), c))
    ];
    go_to = λ m h ne. elim (ℕ_discrete m i) [
      | yes e ↦ (j, omega arith, entry-names' j ∙ ground arith)
      | no ne' ↦
          (let (k, a, b) = s.go_to m (omega arith) ne in
            (k, omega arith, ground (arith, entry-names' k, b)))
    ];
    sorted = λ a b h h'. elim (ℕ_discrete b j) [
      | yes e ↦
          (let (m, x, y, z) = s.come_from a (omega arith) in
            let p : entry names' a ≡ entry old m = ground (arith, entry-names' a, y) in
            let q : entry names' b ≡ entry old i = ground (arith, entry-names' b) in
            rw (p, q) (order m i x (omega arith)))
      | no ne ↦
          let p : entry names' a ≡ entry names a = ground (arith, entry-names' a) in
          let q : entry names' b ≡ entry names b = ground (arith, entry-names' b) in
          rw (p, q) (s.sorted a b h (omega arith))
    ];
  }

compact_names-Kept :
    (handle : ℕ) (old : List HandleName) (n rounds i j : ℕ) (names : List HandleName)
    → IsSorted old n
    → n ≤ length old
    → i + rounds ≡ n
    → Kept handle old i j names
    → Kept handle old n
        (compact_names handle rounds i j names).1
        (compact_names handle rounds i j names).0
unfolding compact_names
compact_names-Kept handle old n zero i j names order fits e s =
    let e' : i ≡ n = omega arith in subst (λ k. Kept handle old k j names) e' s
compact_names-Kept handle old n (suc rounds) i j names order fits e s =
    elim (Bool-cases ((entry names i).handle == handle)) [
      | inl dead ↦
          rw (dead, compact_names)
            (compact_names-Kept handle old n rounds (i + 1) j names order fits (omega arith) (
              Kept-dead handle old i j names s (omega arith)
                (let r = s.rest i (omega arith) in ground arith)))
      | inr alive ↦
          rw (alive, compact_names)
            (compact_names-Kept handle old n rounds (i + 1) (j + 1)
              (names' handle old i j names s (omega arith)) order fits (omega arith)
              (Kept-alive handle old i j names s (omega arith)
                (λ a b h h'. order a b h (omega arith))
                (let r = s.rest i (omega arith) in ground arith)))
    ]

module _ (t : NameTable) (handle : ℕ) (v : IsValid t) where
  removed :
      Kept handle t.name t.name_count
        (remove_names t handle).name_count
        (remove_names t handle).name
  unfolding remove_names
  removed =
      compact_names-Kept handle t.name t.name_count t.name_count 0 0 t.name v.sorted
        (omega (arith, v.stored.cells, v.stored.fits)) (omega arith)
        (record {
          le = omega arith;
          cells = refl;
          rest = λ k h. refl;
          come_from = λ k h. absurd (omega arith);
          go_to = λ m h ne. absurd (omega arith);
          sorted = λ a b h h'. absurd (omega arith);
        })

  remove_names-IsValid : IsValid (remove_names t handle)
  remove_names-IsValid = record {
    stored =
        (let s = removed in
          unfold remove_names in
          record {
            cells = s.cells ∙ v.stored.cells;
            fits = omega (arith, s.le, v.stored.fits);
            some_cell = v.stored.some_cell;
          });
    sorted = removed.sorted;
  }

  -- No entry is left with a name that only the handle had.
  gone :
      (key : List ℕ)
      → ((m : ℕ)
          → m < t.name_count
          → (entry t.name m).name ≡ key
          → (entry t.name m).handle ≡ handle)
      → (k : ℕ) → k < (remove_names t handle).name_count
      → (entry (remove_names t handle).name k).name ≢ key
  gone key only k h e =
      let (m, a, b, c) = removed.come_from k h in
      c (only m a (ap (λ (x : HandleName). x.name) (sym b) ∙ e))

  findname-removed :
      (key : List ℕ) (r : Search)
      → Locates t.name key t.name_count r
      → findname (remove_names t handle) key
        ≡ (if findname t key == handle then 0 else findname t key)
  findname-removed key (found m) l =
      let old = (findname-Finds t key v).0 m l.0 l.1 in
      let new = findname-Finds (remove_names t handle) key remove_names-IsValid in
      elim (ℕ_discrete (entry t.name m).handle handle) [
        | yes dead ↦
            let e = new.1 (
              gone key (λ m' h e.
                ap (λ k. (entry t.name k).handle) (name_unique t m' m v h l.0 (e ∙ sym l.1))
                ∙ dead)) in
            ground (arith, old, e)
        | no alive ↦
            (let (k, a, b) = removed.go_to m l.0 alive in
              let e = new.0 k a (ap (λ (x : HandleName). x.name) b ∙ l.1) in
              ground (arith, old, e, b))
      ]
  findname-removed key (missing c) l =
      let absent = missing-absent t.name key t.name_count c l in
      let old = (findname-Finds t key v).1 absent in
      let new = findname-Finds (remove_names t handle) key remove_names-IsValid in
      ground (arith, old, new.1 (gone key (λ m h e. absurd (absent m h e))))
  findname-removed key Search.out_of_fuel l = absurd l

-- The part of `skynet_handle_retire` that drops names keeps a table valid: a name of the retired
-- handle is found no more, and every other name is found as before.
pub findname-remove_names :
    (t : NameTable) (handle : ℕ)
    → IsValid t
    → IsValid (remove_names t handle)
      × ((key : List ℕ)
          → findname (remove_names t handle) key
            ≡ (if findname t key == handle then 0 else findname t key))
findname-remove_names t handle v = (
  remove_names-IsValid t handle v,
  λ key. findname-removed t handle v key (search_all t key) (search_all-Locates t key v),
)
