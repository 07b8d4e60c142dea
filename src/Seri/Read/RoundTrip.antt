-- ===== src/Seri/Read/RoundTrip.antt =====
-- What was packed is unpacked again, tables included.
use dn_server.Common.{
  ℕ, zero, suc, ◌+◌, ◌*◌, ◌^◌, ◌<◌, ◌≡◌, refl, ap, subst, ◌∙◌, inl, inr, false, List, [], ◌∷◌, ◌++◌,
  some, leb, length, length-append, Bool-cases, >>=-eq-some, append_assoc, arith,
}
use dn_server.Seri.{
  Value, Items, Entries, nil, boolean, integer, number, userdata, string, table, remote, other,
  no_items, item, no_entries, entry, Pushes, rawlen, wb_nil, wb_array_size, concat, is_index,
  check_depth, pack_value, pack_items, pack_entries, type_table,
}
use dn_server.Seri.Read.{ok, get_array_size, is_nil, unpack_one, unpack_items, unpack_entries}
use dn_server.Seri.Read.Numbers.{Tagged, get_array_size-wb_array_size}
use dn_server.Seri.Read.Leaves.{
  Fits, FitItems, FitEntries, received, received_items, received_entries, concat-append,
  check_depth-eq-some, Unpacks, ItemsUnpack, EntriesUnpack, integer_Unpacks, remote_Unpacks,
  string_Unpacks, number-Unpacks, userdata_Unpacks, nil_Unpacks, boolean_Unpacks, unpack_table,
}

pub length-concat :
    (ps qs : Pushes) → length (concat (ps ++ qs)) ≡ length (concat ps) + length (concat qs)
length-concat ps qs = ap length (concat-append ps qs) ∙ length-append (concat ps) (concat qs)

module _ (to_int : ℕ → ℕ) where
  item_Unpacks :
      (v : Value) (vs : Items) (first rest : Pushes)
      → Unpacks to_int first v
      → ItemsUnpack to_int rest vs
      → ItemsUnpack to_int (first ++ rest) (item v vs)
  unfolding unpack_items
  item_Unpacks v vs first rest (pos, one) more tail zero h = absurd (omega arith)
  item_Unpacks v vs first rest (pos, one) more tail (suc f) h =
      let n = length-concat first rest in
      let e : concat (first ++ rest) ++ tail ≡ concat first ++ (concat rest ++ tail) =
        simp (concat-append, append_assoc) in
      rw (e, one (concat rest ++ tail) f (omega (arith, n)))
        (rw (more tail f (omega (arith, n))) refl)

  no_items_Unpacks : ItemsUnpack to_int [] no_items
  unfolding unpack_items
  no_items_Unpacks tail zero h = absurd (omega arith)
  no_items_Unpacks tail (suc f) h = refl

  no_entries_Unpacks : EntriesUnpack to_int [] no_entries
  unfolding unpack_entries unpack_one
  no_entries_Unpacks tail zero h = absurd (omega arith)
  no_entries_Unpacks tail (suc zero) h = absurd (omega arith)
  no_entries_Unpacks tail (suc (suc f)) h = refl

  entry-Unpacks :
      (k v : Value) (es : Entries) (key value rest : Pushes)
      → is_nil k ≡ false
      → Unpacks to_int key k
      → Unpacks to_int value v
      → EntriesUnpack to_int rest es
      → EntriesUnpack to_int (key ++ (value ++ rest)) (entry k v es)
  unfolding unpack_entries
  entry-Unpacks k v es key value rest n (pk, one) (pv, two) more tail zero h = absurd (omega arith)
  entry-Unpacks k v es key value rest n (pk, one) (pv, two) more tail (suc f) h =
      let l = length-concat key (value ++ rest) in
      let l' = length-concat value rest in
      let e : concat (key ++ (value ++ rest)) ++ (0 ∷ tail)
          ≡ concat key ++ (concat value ++ (concat rest ++ (0 ∷ tail))) =
        simp (concat-append, append_assoc) in
      rw (e, one (concat value ++ (concat rest ++ (0 ∷ tail))) f (omega (arith, l, l')), n)
        (rw (two (concat rest ++ (0 ∷ tail)) f (omega (arith, l, l')))
          (rw (more tail f (omega (arith, l, l'))) refl))

  -- The bytes of a table, and their number.
  module _ (vs : Items) (array hash : Pushes) (h : rawlen vs < 2 ^ 31) where
    abbrev header :
        Tagged (get_array_size to_int) type_table (rawlen vs) (wb_array_size (rawlen vs))
    header = get_array_size-wb_array_size to_int (rawlen vs) h

    abbrev table_pushes : Pushes
    table_pushes = wb_array_size (rawlen vs) ++ (array ++ (hash ++ wb_nil))

    table_bytes :
        (rest : List ℕ)
        → concat table_pushes ++ rest
          ≡ (type_table + header.cookie * 8)
            ∷ (header.payload ++ (concat array ++ (concat hash ++ (0 ∷ rest))))
    table_bytes rest = simp (concat-append, append_assoc, header.split)

    length-table :
        length (concat table_pushes)
        ≡ suc (length header.payload) + (length (concat array) + (length (concat hash) + 1))
    length-table = omega (
      arith,
      length-concat (wb_array_size (rawlen vs)) (array ++ (hash ++ wb_nil)),
      length-concat array (hash ++ wb_nil),
      length-concat hash wb_nil,
      ap length header.split,
    )

    table_reads :
        (es : Entries) (rest : List ℕ) (f : ℕ)
        → ItemsUnpack to_int array vs
        → EntriesUnpack to_int hash es
        → length (concat table_pushes) < f
        → unpack_one to_int f (concat table_pushes ++ rest) ≡ ok (table vs es) rest
    table_reads es rest zero items entries q = absurd (omega arith)
    table_reads es rest (suc f) items entries q =
        let s = concat array ++ (concat hash ++ (0 ∷ rest)) in
        let pos : leb (2 ^ 31) (rawlen vs) ≡ false = ground arith in
        ap (unpack_one to_int (suc f)) (table_bytes rest)
        ∙ unpack_table to_int f header.cookie (header.payload ++ s)
        ∙ rw (header.reads s, pos)
            (rw (items (concat hash ++ (0 ∷ rest)) f (omega (arith, length-table)))
              (rw (entries rest f (omega (arith, length-table))) refl))

  table_Unpacks :
      (vs : Items) (es : Entries) (array hash : Pushes)
      → rawlen vs < 2 ^ 31
      → ItemsUnpack to_int array vs
      → EntriesUnpack to_int hash es
      → Unpacks to_int (wb_array_size (rawlen vs) ++ (array ++ (hash ++ wb_nil))) (table vs es)
  table_Unpacks vs es array hash h items entries = (
    omega (arith, length-table vs array hash h),
    λ rest f q. table_reads vs array hash h es rest f items entries q,
  )

carry : (P : Pushes → Type 0) (a b : Pushes) → some a ≡ some b → P a → P b
carry P a b e h = let q : a ≡ b = cc in subst P q h

rawlen-received : (vs : Items) → rawlen (received_items vs) ≡ rawlen vs
rawlen-received no_items = refl
rawlen-received (item v vs) = ap suc (rawlen-received vs)

is_nil-received : (v : Value) → is_nil (received v) ≡ is_nil v
is_nil-received nil = refl
is_nil-received (boolean b) = refl
is_nil-received (integer x) = refl
is_nil-received (number x) = refl
is_nil-received (userdata p) = refl
is_nil-received (string s) = refl
is_nil-received (remote handle) = refl
is_nil-received other = refl
is_nil-received (table vs es) = refl

-- Every value that is packed at some depth is unpacked.
module _ (to_int : ℕ → ℕ) where
  received_table_Unpacks :
      (vs : Items) (es : Entries) (array hash : Pushes)
      → rawlen vs < 2 ^ 31
      → ItemsUnpack to_int array (received_items vs)
      → EntriesUnpack to_int hash (received_entries (rawlen vs) es)
      → Unpacks to_int
          (wb_array_size (rawlen vs) ++ (array ++ (hash ++ wb_nil)))
          (received (table vs es))
  received_table_Unpacks vs es array hash h items entries =
      let e = rawlen-received vs in
      subst
        (λ n.
          Unpacks to_int (wb_array_size n ++ (array ++ (hash ++ wb_nil))) (received (table vs es)))
        e
        (table_Unpacks to_int (received_items vs) (received_entries (rawlen vs) es) array hash
          (omega (arith, e)) items entries)

  mutual
    unfolding pack_value pack_items pack_entries

    pub pack_value-Unpacks :
        (v : Value) (depth : ℕ) (ps : Pushes)
        → Fits v
        → pack_value depth v ≡ some ps
        → Unpacks to_int ps (received v)
    pack_value-Unpacks nil depth ps h e =
        carry (λ q. Unpacks to_int q nil) _ ps e (nil_Unpacks to_int)
    pack_value-Unpacks (boolean b) depth ps h e =
        carry (λ q. Unpacks to_int q (boolean b)) _ ps e (boolean_Unpacks to_int b)
    pack_value-Unpacks (integer x) depth ps h e =
        carry (λ q. Unpacks to_int q (integer x)) _ ps e (integer_Unpacks to_int x h)
    pack_value-Unpacks (number x) depth ps h e =
        carry (λ q. Unpacks to_int q (number x)) _ ps e (number-Unpacks to_int x h)
    pack_value-Unpacks (userdata x) depth ps h e =
        carry (λ q. Unpacks to_int q (userdata x)) _ ps e (userdata_Unpacks to_int x h)
    pack_value-Unpacks (string s) depth ps h e =
        carry (λ q. Unpacks to_int q (string s)) _ ps e (string_Unpacks to_int s h)
    pack_value-Unpacks (remote x) depth ps h e =
        carry (λ q. Unpacks to_int q (remote x)) _ ps e (remote_Unpacks to_int x h)
    pack_value-Unpacks other depth ps h e = cc
    pack_value-Unpacks (table vs es) depth ps (small, hv, he) e =
        let (array, a, e₁) = >>=-eq-some (pack_items (depth + 1) vs) _ e in
        let (hash, b, e₂) = >>=-eq-some (pack_entries (depth + 1) (rawlen vs) es) _ e₁ in
        carry (λ q. Unpacks to_int q (received (table vs es))) _ ps e₂
          (received_table_Unpacks vs es array hash small
            (pack_items-Unpacks vs (depth + 1) array hv a)
            (pack_entries-Unpacks es (depth + 1) (rawlen vs) hash he b))

    pack_items-Unpacks :
        (vs : Items) (depth : ℕ) (ps : Pushes)
        → FitItems vs
        → pack_items depth vs ≡ some ps
        → ItemsUnpack to_int ps (received_items vs)
    pack_items-Unpacks no_items depth ps h e =
        carry (λ q. ItemsUnpack to_int q no_items) _ ps e (no_items_Unpacks to_int)
    pack_items-Unpacks (item v vs) depth ps (hv, hs) e =
        let (first, a, e₁) = >>=-eq-some (check_depth depth (pack_value depth v)) _ e in
        let (rest, b, e₂) = >>=-eq-some (pack_items depth vs) _ e₁ in
        carry (λ q. ItemsUnpack to_int q (received_items (item v vs))) _ ps e₂
          (item_Unpacks to_int (received v) (received_items vs) first rest
            (pack_value-Unpacks v depth first hv (check_depth-eq-some depth (pack_value depth v) a))
            (pack_items-Unpacks vs depth rest hs b))

    pack_entries-Unpacks :
        (es : Entries) (depth size : ℕ) (ps : Pushes)
        → FitEntries es
        → pack_entries depth size es ≡ some ps
        → EntriesUnpack to_int ps (received_entries size es)
    pack_entries-Unpacks no_entries depth size ps h e =
        carry (λ q. EntriesUnpack to_int q no_entries) _ ps e (no_entries_Unpacks to_int)
    pack_entries-Unpacks (entry k v es) depth size ps (hk, n, hv, hs) e =
        elim (Bool-cases (is_index size k)) [
          | inl skipped ↦ rw skipped (pack_entries-Unpacks es depth size ps hs (rw skipped at e))
          | inr kept ↦
              let (key, a, e₁) =
                >>=-eq-some (check_depth depth (pack_value depth k)) _ (rw kept at e) in
              let (value, b, e₂) = >>=-eq-some (check_depth depth (pack_value depth v)) _ e₁ in
              let (more, c, e₃) = >>=-eq-some (pack_entries depth size es) _ e₂ in
              rw kept (
                carry
                  (λ q.
                    EntriesUnpack to_int q
                      (entry (received k) (received v) (received_entries size es)))
                  _ ps e₃
                  (entry-Unpacks to_int (received k) (received v) (received_entries size es) key
                    value more (is_nil-received k ∙ n)
                    (pack_value-Unpacks k depth key hk
                      (check_depth-eq-some depth (pack_value depth k) a))
                    (pack_value-Unpacks v depth value hv
                      (check_depth-eq-some depth (pack_value depth v) b))
                    (pack_entries-Unpacks es depth size more hs c)))
        ]
