-- ===== src/GlobalNames/Find.antt =====
-- The table of global names as a map: what a search finds after an insertion or a write.
use dn_server.Common.{
  ℕ, zero, suc, ◌%◌, ◌≡◌, refl, sym, ap, ◌∙◌, Bool, true, false, List, [], ◌∷◌, none, some, inl,
  inr, ◌==◌, ◌&&◌, if◌then◌else◌, take, drop, Bool-cases, Option-cases, arith, eq→==, ==→eq,
}
use dn_server.GlobalNames.{
  KeyValue, HashMap, globalname_length, name_hash, same_prefix, is_key, search_chain, hash_search,
  hash_new, hash_insert, write_chain, hash_write, hash_obtain, hash_put,
}

-- Two names that the table does not tell apart.
abbrev pub is_same : List ℕ → List ℕ → Bool
is_same a b = name_hash a == name_hash b && same_prefix globalname_length a b

same_prefix_self : (n : ℕ) (a : List ℕ) → same_prefix n a a ≡ true
unfolding same_prefix
same_prefix_self zero a = refl
same_prefix_self (suc n) a = ground (arith, same_prefix_self n (drop 1 a))

same_prefix_congr :
    (n : ℕ) (a b c : List ℕ) → same_prefix n a b ≡ true → same_prefix n a c ≡ same_prefix n b c
unfolding same_prefix
same_prefix_congr zero a b c h = refl
same_prefix_congr (suc n) a b c h =
    ground (arith, same_prefix_congr n (drop 1 a) (drop 1 b) (drop 1 c))

-- A key holds the name up to its 16 bytes, and a longer name is read no further.
same_prefix-take : (n : ℕ) (a b : List ℕ) → same_prefix n (take n a) b ≡ same_prefix n a b
unfolding same_prefix
same_prefix-take zero a b = refl
same_prefix-take (suc n) [] b = refl
same_prefix-take (suc n) (x ∷ a) b = rw (same_prefix-take n a (drop 1 b)) refl

is_key-congr :
    {A : Type 0} (node : KeyValue A) (a b : List ℕ)
    → is_key node a ≡ true
    → is_key node b ≡ is_same a b
unfolding is_key
is_key-congr node a b h = ground (arith, same_prefix_congr globalname_length node.key a b)

search_chain-write_self :
    {A : Type 0} (nodes : List (KeyValue A)) (name : List ℕ) (old item : A)
    → search_chain nodes name ≡ some old
    → search_chain (write_chain nodes name item) name ≡ some item
unfolding search_chain write_chain is_key
search_chain-write_self [] name old item h = cc
search_chain-write_self (node ∷ nodes) name old item h =
    ground (arith, search_chain-write_self nodes name old item)

search_chain-write_other :
    {A : Type 0} (nodes : List (KeyValue A)) (name q : List ℕ) (item : A)
    → is_same name q ≡ false
    → search_chain (write_chain nodes name item) q ≡ search_chain nodes q
unfolding search_chain write_chain is_key
search_chain-write_other [] name q item ne = refl
search_chain-write_other (node ∷ nodes) name q item ne =
    ground (arith, search_chain-write_other nodes name q item ne, is_key-congr node name q)

same_prefix_congr_right :
    (n : ℕ) (a b c : List ℕ) → same_prefix n a b ≡ true → same_prefix n c a ≡ same_prefix n c b
unfolding same_prefix
same_prefix_congr_right zero a b c h = refl
same_prefix_congr_right (suc n) a b c h =
    ground (arith, same_prefix_congr_right n (drop 1 a) (drop 1 b) (drop 1 c))

is_same-hash : (a b : List ℕ) → is_same a b ≡ true → name_hash a ≡ name_hash b
is_same-hash a b h = ground arith

is_key_same :
    {A : Type 0} (node : KeyValue A) (a b : List ℕ)
    → is_same a b ≡ true
    → is_key node a ≡ is_key node b
unfolding is_key
is_key_same node a b h = ground (arith, same_prefix_congr_right globalname_length a b node.key)

search_chain_same :
    {A : Type 0} (nodes : List (KeyValue A)) (a b : List ℕ)
    → is_same a b ≡ true
    → search_chain nodes a ≡ search_chain nodes b
unfolding search_chain
search_chain_same [] a b h = refl
search_chain_same (node ∷ nodes) a b h =
    rw (is_key_same node a b h, search_chain_same nodes a b h) refl

-- The names that the table does not tell apart find the same.
hash_search_same :
    {A : Type 0} (size : ℕ) (map : HashMap A) (a b : List ℕ)
    → is_same a b ≡ true
    → hash_search size map a ≡ hash_search size map b
unfolding hash_search
hash_search_same size map a b h = rw (is_same-hash a b h) (search_chain_same (map _) a b h)

-- A new node is found under its name, and changes no other search.
hash_search-insert :
    {A : Type 0} (size : ℕ) (map : HashMap A) (name q : List ℕ) (item : A)
    → hash_search size (hash_insert size map name item) q
      ≡ (if is_same name q then some item else hash_search size map q)
unfolding hash_search hash_insert search_chain is_key
hash_search-insert size map name q item = ground (arith, same_prefix-take globalname_length name q)

hash_search-write_self :
    {A : Type 0} (size : ℕ) (map : HashMap A) (name : List ℕ) (old item : A)
    → hash_search size map name ≡ some old
    → hash_search size (hash_write size map name item) name ≡ some item
unfolding hash_search hash_write
hash_search-write_self size map name old item h =
    let i = name_hash name % size in
    rw (eq→== i i refl) (search_chain-write_self (map i) name old item h)

-- A write to a node that is there is found under its name, and changes no other search.
hash_search-write :
    {A : Type 0} (size : ℕ) (map : HashMap A) (name q : List ℕ) (old item : A)
    → hash_search size map name ≡ some old
    → hash_search size (hash_write size map name item) q
      ≡ (if is_same name q then some item else hash_search size map q)
unfolding hash_search hash_write
hash_search-write size map name q old item h = elim (Bool-cases (is_same name q)) [
  | inl same ↦ rw same (
      sym (hash_search_same size (hash_write size map name item) name q same)
      ∙ hash_search-write_self size map name old item h)
  | inr ne ↦ rw ne (
      let i = name_hash name % size in
      elim (Bool-cases (name_hash q % size == i)) [
        | inl e ↦ rw e (
            search_chain-write_other (map i) name q item ne
            ∙ ap (λ k. search_chain (map k) q) (sym (==→eq (name_hash q % size) i e)))
        | inr e ↦ rw e refl
      ])
]

pub is_same_self : (name : List ℕ) → is_same name name ≡ true
is_same_self name =
    rw (eq→== (name_hash name) (name_hash name) refl) (same_prefix_self globalname_length name)

-- What a function obtains is what the search finds, or the fresh node.
pub hash_obtain-item :
    {A : Type 0} (size : ℕ) (map : HashMap A) (name : List ℕ) (fresh : A)
    → (hash_obtain size map name fresh).0
      ≡ elim (hash_search size map name) [ none ↦ fresh | some item ↦ item ]
unfolding hash_obtain
hash_obtain-item size map name fresh = elim (Option-cases (hash_search size map name)) [
  | inl e ↦ rw (e, hash_obtain) refl
  | inr (item, e) ↦ rw (e, hash_obtain) refl
]

-- The write through an obtained node is found under its name, and changes no other search.
pub hash_search-put :
    {A : Type 0} (size : ℕ) (map : HashMap A) (name q : List ℕ) (fresh item : A)
    → hash_search size (hash_put size map name fresh item) q
      ≡ (if is_same name q then some item else hash_search size map q)
unfolding hash_put hash_obtain
hash_search-put size map name q fresh item = elim (Option-cases (hash_search size map name)) [
  | inr (old, e) ↦ rw (e, hash_put, hash_obtain) (hash_search-write size map name q old item e)
  | inl e ↦
      let inserted = hash_insert size map name fresh in
      let found : hash_search size inserted name ≡ some fresh =
        hash_search-insert size map name name fresh ∙ rw (is_same_self name) refl in
      rw (e, hash_put, hash_obtain)
        (hash_search-write size inserted name q fresh item found
          ∙ elim (Bool-cases (is_same name q)) [
            | inl same ↦ rw same refl
            | inr ne ↦ rw ne (hash_search-insert size map name q fresh ∙ rw ne refl)
          ])
]

-- A node that is there is obtained without an insertion.
pub hash_obtain-some :
    {A : Type 0} (size : ℕ) (map : HashMap A) (name : List ℕ) (fresh item : A)
    → hash_search size map name ≡ some item
    → hash_obtain size map name fresh ≡ (item, map)
unfolding hash_obtain
hash_obtain-some size map name fresh item e = rw (e, hash_obtain) refl

pub hash_search-new :
    {A : Type 0} (size : ℕ) (name : List ℕ) → hash_search {A = A} size hash_new name ≡ none
unfolding hash_search search_chain
hash_search-new size name = refl
