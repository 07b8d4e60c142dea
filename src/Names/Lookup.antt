-- ===== src/Names/Lookup.antt =====
-- The binary search over the sorted names, and what a new name does to it.
use Prim.Native.Nat.{lt, eq, gt}
use native.Mathlib.Decide.{dec_lt}
use dn_server.Common.{
  ℕ, zero, suc, ◌+◌, ◌-◌, ◌/◌, ◌≤◌, ◌<◌, ◌≡◌, ◌≢◌, refl, sym, ap, ◌∙◌, subst, inl, inr, List, ltb,
  arith, Bool-cases, ltb→lt,
}
use dn_server.Names.{
  HandleName, NameTable, entry, strcmp, Search, found, missing, search, search_all, findname,
}
use dn_server.Names.Compare.{strcmp_self, eq_of_strcmp, strcmp-flip, strcmp_trans}
use dn_server.Names.Arrays.{IsStored}

-- The names stand in increasing order, so none stands there twice.
abbrev pub IsSorted : List HandleName → ℕ → Type 0
IsSorted names n = (i j : ℕ) → i < j → j < n → strcmp (entry names i).name (entry names j).name ≡ lt

pub record IsValid (t : NameTable) : Type 0 where
  pub stored : IsStored t
  pub sorted : IsSorted t.name t.name_count

-- What the search tells of the first `n` entries.
abbrev pub Locates : List HandleName → List ℕ → ℕ → Search → Type 0
Locates names key n (found m) = (m < n) × ((entry names m).name ≡ key)
Locates names key n (missing b) =
    (b ≤ n)
    × ((i : ℕ) → i < b → strcmp (entry names i).name key ≡ lt)
    × ((i : ℕ) → b ≤ i → i < n → strcmp key (entry names i).name ≡ lt)
Locates names key n Search.out_of_fuel = ⊥

module _ (names : List HandleName) (key : List ℕ) (n : ℕ) (sorted : IsSorted names n) where
  below_mid :
      (m i : ℕ)
      → m < n
      → strcmp (entry names m).name key ≡ lt
      → i < m + 1
      → strcmp (entry names i).name key ≡ lt
  below_mid m i h c l = elim (dec_lt i m) [
    | yes p ↦ strcmp_trans (entry names i).name (entry names m).name key (sorted i m p h) c
    | no p ↦ let e : i ≡ m = omega arith in rw e c
  ]

  above_mid :
      (m i : ℕ)
      → strcmp (entry names m).name key ≡ gt
      → m ≤ i
      → i < n
      → strcmp key (entry names i).name ≡ lt
  above_mid m i c l h = elim (dec_lt m i) [
    | yes p ↦
        strcmp_trans key (entry names m).name (entry names i).name
          (strcmp-flip (entry names m).name key c) (sorted m i p h)
    | no p ↦ let e : i ≡ m = omega arith in rw e (strcmp-flip (entry names m).name key c)
  ]

  search-Locates :
      (fuel b e : ℕ)
      → b ≤ e
      → e ≤ n
      → e - b < fuel
      → ((i : ℕ) → i < b → strcmp (entry names i).name key ≡ lt)
      → ((i : ℕ) → e ≤ i → i < n → strcmp key (entry names i).name ≡ lt)
      → Locates names key n (search names key fuel b e)
  unfolding search
  search-Locates zero b e h k f lo hi = absurd (omega arith)
  search-Locates (suc fuel) b e h k f lo hi = elim (Bool-cases (ltb b e)) [
    | inr done ↦ rw done (omega arith, lo, λ i l. hi i (ground arith))
    | inl more ↦
        let m = (b + e - 1) / 2 in
        let l : b < e = ltb→lt b e more in
        rw more (
          (elim (strcmp (entry names m).name key)
              as (λ c.
                strcmp (entry names m).name key ≡ c
                → Locates names key n (elim c [
                  | eq ↦ found m
                  | lt ↦ search names key fuel (m + 1) e
                  | gt ↦ search names key fuel b m
                ])) [
                  | lt ↦ λ c.
                      search-Locates fuel (m + 1) e (omega arith) k (omega arith)
                        (λ i. below_mid m i (omega arith) c) hi
                  | eq ↦ λ c. (omega arith, eq_of_strcmp (entry names m).name key c)
                  | gt ↦ λ c.
                      search-Locates fuel b m (omega arith) (omega arith) (omega arith) lo
                        (λ i. above_mid m i c)
                ])
            refl)
  ]

pub search_all-Locates :
    (t : NameTable) (key : List ℕ) → IsValid t → Locates t.name key t.name_count (search_all t key)
search_all-Locates t key v =
    search-Locates t.name key t.name_count v.sorted (t.name_count + 1) 0 t.name_count (omega arith)
      (omega arith) (omega arith) (λ i h. absurd (omega arith)) (λ i h l. absurd (omega arith))

-- Names that compare less are different.
ne_of_lt : (a b : List ℕ) → strcmp a b ≡ lt → a ≢ b
ne_of_lt a b h e =
    let s : strcmp a a ≡ lt = subst (λ x. strcmp a x ≡ lt) (sym e) h in cc (s, strcmp_self a)

-- In a valid table two entries with one name are one entry.
pub name_unique :
    (t : NameTable) (i j : ℕ)
    → IsValid t
    → i < t.name_count
    → j < t.name_count
    → (entry t.name i).name ≡ (entry t.name j).name
    → i ≡ j
name_unique t i j v hi hj e = elim (dec_lt i j) [
  | yes p ↦ absurd (ne_of_lt _ _ (v.sorted i j p hj) e)
  | no p ↦ elim (dec_lt j i) [
    | yes q ↦ absurd (ne_of_lt _ _ (v.sorted j i q hi) (sym e))
    | no q ↦ omega arith
  ]
]

-- What the table says of a name: the handle of its entry, or 0 where no entry has it.
abbrev pub Finds : NameTable → List ℕ → ℕ → Type 0
Finds t key h =
    ((i : ℕ) → i < t.name_count → (entry t.name i).name ≡ key → h ≡ (entry t.name i).handle)
    × (((i : ℕ) → i < t.name_count → (entry t.name i).name ≢ key) → h ≡ 0)

-- A place between the smaller and the greater names: no entry has the name.
pub missing-absent :
    (names : List HandleName) (key : List ℕ) (n b : ℕ)
    → Locates names key n (missing b)
    → (i : ℕ) → i < n
    → (entry names i).name ≢ key
missing-absent names key n b l i h e = elim (dec_lt i b) [
  | yes p ↦ ne_of_lt _ _ (l.1 i p) e
  | no p ↦ ne_of_lt _ _ (l.2 i (omega arith) h) (sym e)
]

found-Finds :
    (t : NameTable) (key : List ℕ) (r : Search)
    → IsValid t
    → Locates t.name key t.name_count r
    → Finds t key (elim r [
      | found mid ↦ (entry t.name mid).handle
      | missing begin ↦ 0
      | Search.out_of_fuel ↦ 0
    ])
found-Finds t key (found m) v l = (
  λ i h e. ap (λ k. (entry t.name k).handle) (name_unique t m i v l.0 h (l.1 ∙ sym e)),
  λ none. absurd (none m l.0 l.1),
)
found-Finds t key (missing b) v l =
    (λ i h e. absurd (missing-absent t.name key t.name_count b l i h e), λ none. refl)
found-Finds t key Search.out_of_fuel v l = absurd l

-- `skynet_handle_findname` on a valid table returns the handle of the entry with the name, and 0
-- where no entry has it.
pub findname-Finds : (t : NameTable) (key : List ℕ) → IsValid t → Finds t key (findname t key)
unfolding findname
findname-Finds t key v = found-Finds t key (search_all t key) v (search_all-Locates t key v)
