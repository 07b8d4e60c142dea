-- ===== src/GlobalNames.antt =====
-- The hash table of global names, `struct hashmap` of dn/service-src/service_harbor.c and `struct
-- namemap` of dn/service-src/service_master.c: the two differ in the length of the array and in what
-- an entry holds besides its key. A name is 16 bytes; a byte beyond the end of a list is 0.
pub mod Find
mod Tests
use dn_server.Common.{
  ℕ, zero, suc, ◌+◌, ◌*◌, ◌%◌, ◌^◌, Bool, true, false, List, [], ◌∷◌, Option, none, some, ◌==◌,
  ◌&&◌, if◌then◌else◌, get_or, take, drop,
}
use Prim.Native.Nat.{bit_xor}

abbrev pub globalname_length : ℕ
globalname_length = 16

-- `struct keyvalue` and `struct name`: `item` is what they hold for the name.
pub record KeyValue (A : Type 0) : Type 0 where
  pub key : List ℕ
  pub hash : ℕ
  pub item : A

-- The array of chains.
abbrev pub HashMap : Type 0 → Type 0
HashMap A = ℕ → List (KeyValue A)

-- `_hash_new`
abbrev pub hash_new : {A : Type 0} → HashMap A
hash_new i = []

-- `ptr[i]` of the name as an array of `uint32_t`, the low byte first
abbrev pub word : List ℕ → ℕ → ℕ
word name i =
    get_or name (i * 4) 0
    + get_or name (i * 4 + 1) 0 * 2 ^ 8
    + get_or name (i * 4 + 2) 0 * 2 ^ 16
    + get_or name (i * 4 + 3) 0 * 2 ^ 24

pub name_hash : List ℕ → ℕ
name_hash name = bit_xor (bit_xor (bit_xor (word name 0) (word name 1)) (word name 2)) (word name 3)

-- `strncmp(a, b, n) == 0`
pub same_prefix : ℕ → List ℕ → List ℕ → Bool
same_prefix zero a b = true
same_prefix (suc n) a b =
    let rest = same_prefix n (drop 1 a) (drop 1 b) in
    if get_or a 0 0 == get_or b 0 0 then (if get_or a 0 0 == 0 then true else rest) else false

-- The test that the two searches make.
pub is_key : {A : Type 0} → KeyValue A → List ℕ → Bool
is_key node name = node.hash == name_hash name && same_prefix globalname_length node.key name

pub search_chain : {A : Type 0} → List (KeyValue A) → List ℕ → Option A
search_chain [] name = none
search_chain (node ∷ nodes) name =
    if is_key node name then some node.item else search_chain nodes name

-- `_hash_search` and `_search_name`, in an array of `size` chains.
pub hash_search : {A : Type 0} → ℕ → HashMap A → List ℕ → Option A
hash_search size map name = search_chain (map (name_hash name % size)) name

-- a write to one chain
abbrev pub set_chain : {A : Type 0} → HashMap A → ℕ → List (KeyValue A) → HashMap A
set_chain map i chain j = if j == i then chain else map j

-- `_hash_insert` and `_insert_name`
pub hash_insert : {A : Type 0} → ℕ → HashMap A → List ℕ → A → HashMap A
hash_insert size map name item =
    let h = name_hash name in
    set_chain map (h % size)
      (record { key = take globalname_length name; hash = h; item = item } ∷ map (h % size))

write_chain : {A : Type 0} → List (KeyValue A) → List ℕ → A → List (KeyValue A)
write_chain [] name item = []
write_chain (node ∷ nodes) name item =
    if is_key node name
    then record node { item = item } ∷ nodes
    else node ∷ write_chain nodes name item

-- A write through the pointer to the node that a search returned.
pub hash_write : {A : Type 0} → ℕ → HashMap A → List ℕ → A → HashMap A
hash_write size map name item =
    let i = name_hash name % size in set_chain map i (write_chain (map i) name item)

-- The search with the insertion where it fails, for the three functions that use both.
pub hash_obtain : {A : Type 0} → ℕ → HashMap A → List ℕ → A → A × HashMap A
hash_obtain size map name fresh = elim (hash_search size map name) [
  | some item ↦ (item, map)
  | none ↦ (fresh, hash_insert size map name fresh)
]

-- The node that a function obtains is written to.
pub hash_put : {A : Type 0} → ℕ → HashMap A → List ℕ → A → A → HashMap A
hash_put size map name fresh item = hash_write size ((hash_obtain size map name fresh).1) name item
