-- ===== src/Seri.antt =====
-- dn/lualib-src/lua-seri.c: Lua values as bytes. This file has the values and what `_pack_one` writes:
-- each `wb_push` is one list of bytes, and the error of a Lua call is `none`. Numbers are in memory
-- order, the lowest byte first. What the Lua interpreter gives is in the values: whether a number is
-- that of an `int32_t`, the length of a table, its elements by index, and its traversal.
pub mod Blocks
pub mod Packs
pub mod Read
mod Tests
use dn_server.Common.{
  ℕ, zero, suc, ◌+◌, ◌-◌, ◌*◌, ◌/◌, ◌%◌, ◌^◌, Bool, true, false, List, [], ◌∷◌, ◌++◌, Option, none,
  some, ltb, leb, ◌==◌, ◌&&◌, if◌then◌else◌, length, ◌>>=◌,
}

-- A Lua value. An `integer` is the bit pattern of an `int32_t`, a `number` the pattern of a double
-- that no `int32_t` equals. A table has the elements 1 to its length and the entries in the order
-- of `lua_next`; one with a handle under `__remote` is `remote`. `other` is any unsupported type.
mutual
  pub data Value : Type 0 where
    nil : Value
    boolean : Bool → Value
    integer : ℕ → Value
    number : ℕ → Value
    userdata : ℕ → Value
    string : List ℕ → Value
    table : Items → Entries → Value
    remote : ℕ → Value
    other : Value

  pub data Items : Type 0 where
    no_items : Items
    item : Value → Items → Items

  pub data Entries : Type 0 where
    no_entries : Entries
    entry : Value → Value → Entries → Entries

-- `lua_rawlen`
abbrev pub rawlen : Items → ℕ
rawlen no_items = 0
rawlen (item v vs) = suc (rawlen vs)

abbrev pub type_nil : ℕ
type_nil = 0

abbrev pub type_boolean : ℕ
type_boolean = 1

abbrev pub type_number : ℕ
type_number = 2

abbrev pub type_userdata : ℕ
type_userdata = 3

abbrev pub type_short_string : ℕ
type_short_string = 4

abbrev pub type_long_string : ℕ
type_long_string = 5

abbrev pub type_table : ℕ
type_table = 6

abbrev pub type_remote : ℕ
type_remote = 7

abbrev pub max_cookie : ℕ
max_cookie = 32

abbrev pub max_depth : ℕ
max_depth = 32

-- `COMBINE_TYPE`, of which one byte is pushed
abbrev pub combine_type : ℕ → ℕ → ℕ
combine_type t v = (t + v * 8) % 256

-- The given number of bytes of a number in memory.
abbrev pub bytes : ℕ → ℕ → List ℕ
bytes zero v = []
bytes (suc n) v = v % 256 ∷ bytes n (v / 256)

-- The pushes to a write block, in order.
abbrev pub Pushes : Type 0
Pushes = List (List ℕ)

abbrev pub push_type : ℕ → ℕ → List ℕ
push_type t v = combine_type t v ∷ []

abbrev pub wb_nil : Pushes
wb_nil = push_type type_nil 0 ∷ []

abbrev pub wb_boolean : Bool → Pushes
wb_boolean b = push_type type_boolean (if b then 1 else 0) ∷ []

-- `wb_integer`; a pattern of 2 ^ 31 or more is negative.
pub wb_integer : ℕ → ℕ → Pushes
wb_integer v type =
    if v == 0
    then push_type type 0 ∷ []
    else if leb (2 ^ 31) v
    then push_type type 4 ∷ bytes 4 v ∷ []
    else if ltb v 0x100
    then push_type type 1 ∷ bytes 1 v ∷ []
    else if ltb v 0x10000
    then push_type type 2 ∷ bytes 2 v ∷ []
    else push_type type 4 ∷ bytes 4 v ∷ []

abbrev pub wb_number : ℕ → Pushes
wb_number v = push_type type_number 8 ∷ bytes 8 v ∷ []

abbrev pub wb_pointer : ℕ → Pushes
wb_pointer v = push_type type_userdata 0 ∷ bytes 8 v ∷ []

-- `wb_string` with the length as an `int`: that of 2 ^ 31 bytes or more is negative.
pub wb_string : List ℕ → Pushes
wb_string str =
    let len = length str % 2 ^ 32 in
    if leb (2 ^ 31) len
    then push_type type_short_string len ∷ []
    else if ltb len max_cookie
    then push_type type_short_string len ∷ (if ltb 0 len then str ∷ [] else [])
    else if ltb len 0x10000
    then push_type type_long_string 2 ∷ bytes 2 len ∷ str ∷ []
    else push_type type_long_string 4 ∷ bytes 4 len ∷ str ∷ []

-- The start of `wb_table_array`: the length of the array part.
pub wb_array_size : ℕ → Pushes
wb_array_size size =
    if leb (max_cookie - 1) size
    then push_type type_table (max_cookie - 1) ∷ wb_integer size type_number
    else push_type type_table size ∷ []

-- The test of `wb_table_hash`: the key is in the array part.
abbrev pub is_index : ℕ → Value → Bool
is_index size (integer x) = ltb 0 x && ltb x (2 ^ 31) && leb x size
is_index size _ = false

-- The test at the start of `_pack_one`.
abbrev pub check_depth : ℕ → Option Pushes → Option Pushes
check_depth depth rest = if ltb max_depth depth then none else rest

-- The cases of `_pack_one`, with `wb_table` in its case, and the loops of `wb_table_array` and
-- `wb_table_hash`.
mutual
  pub pack_value : ℕ → Value → Option Pushes
  pack_value depth nil = some wb_nil
  pack_value depth (boolean b) = some (wb_boolean b)
  pack_value depth (integer x) = some (wb_integer x type_number)
  pack_value depth (number x) = some (wb_number x)
  pack_value depth (userdata p) = some (wb_pointer p)
  pack_value depth (string s) = some (wb_string s)
  pack_value depth (remote handle) = some (wb_integer handle type_remote)
  pack_value depth other = none
  pack_value depth (table vs es) = pack_items (depth + 1) vs >>= λ array.
      pack_entries (depth + 1) (rawlen vs) es >>= λ hash.
      some (wb_array_size (rawlen vs) ++ (array ++ (hash ++ wb_nil)))

  pub pack_items : ℕ → Items → Option Pushes
  pack_items depth no_items = some []
  pack_items depth (item v vs) = check_depth depth (pack_value depth v) >>= λ first.
      pack_items depth vs >>= λ rest. some (first ++ rest)

  pub pack_entries : ℕ → ℕ → Entries → Option Pushes
  pack_entries depth size no_entries = some []
  pack_entries depth size (entry k v es) =
      let rest = pack_entries depth size es in
      if is_index size k
      then rest
      else check_depth depth (pack_value depth k) >>= λ key.
          check_depth depth (pack_value depth v) >>= λ value.
          rest >>= λ more. some (key ++ (value ++ more))

-- `_pack_one`
pub pack_one : ℕ → Value → Option Pushes
pack_one depth v = check_depth depth (pack_value depth v)

-- `_pack_from`: the arguments of a call, at depth 0.
pub pack_from : List Value → Option Pushes
pack_from [] = some []
pack_from (v ∷ vs) = pack_one 0 v >>= λ first. pack_from vs >>= λ rest. some (first ++ rest)

-- The bytes of the pushes.
abbrev pub concat : Pushes → List ℕ
concat [] = []
concat (p ∷ ps) = p ++ concat ps
