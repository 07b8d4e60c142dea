-- ===== src/Seri/Read.antt =====
-- The other direction of dn/lualib-src/lua-seri.c: `rb_read` on a buffer, `_push_value` and the loop of
-- `_luaseri_unpack`. A stream is the bytes that are left of the buffer.
pub mod Numbers
pub mod Leaves
pub mod Ends
pub mod Total
pub mod RoundTrip
pub mod Whole
use dn_server.Common.{
  ℕ, zero, suc, ◌+◌, ◌-◌, ◌*◌, ◌/◌, ◌%◌, ◌^◌, Bool, true, false, List, [], ◌∷◌, ◌++◌, Option, none,
  some, ltb, leb, ◌==◌, ◌&&◌, not, if◌then◌else◌, length,
}
use dn_server.Seri.{
  Value, Items, Entries, nil, boolean, integer, number, userdata, string, table, remote, no_items,
  item, no_entries, entry, type_number, max_cookie,
}

-- How a read ends: with a value and the rest of the stream, with the error of `_invalid_stream`,
-- with a read at a null pointer, or without fuel.
pub data Result {ℓ} (A : Type ℓ) : Type ℓ where
  ok : A → List ℕ → Result A
  invalid : Result A
  crash : Result A
  out_of_fuel : Result A

infixl 5 ◌>>=◌
abbrev pub ◌>>=◌ {ℓ κ} : {A : Type ℓ} {B : Type κ} → Result A → (A → List ℕ → Result B) → Result B
ok a s >>= f = f a s
invalid >>= f = invalid
crash >>= f = crash
out_of_fuel >>= f = out_of_fuel

abbrev pub into {ℓ κ} : {A : Type ℓ} {B : Type κ} → (A → B) → Result A → Result B
into f m = m >>= λ a s. ok (f a) s

-- `rb_read` of a buffer: `none` is NULL.
pub rb_read : ℕ → List ℕ → Option (List ℕ × List ℕ)
rb_read zero s = some ([], s)
rb_read (suc n) [] = none
rb_read (suc n) (b ∷ s) = elim (rb_read n s) [ none ↦ none | some (bs, rest) ↦ some (b ∷ bs, rest) ]

-- The number that bytes in memory stand for.
abbrev pub from_bytes : List ℕ → ℕ
from_bytes [] = 0
from_bytes (b ∷ bs) = b + from_bytes bs * 256

-- A read of a number of the given size, checked for NULL.
pub read_number : ℕ → List ℕ → Result ℕ
read_number n s = elim (rb_read n s) [ none ↦ invalid | some (bs, rest) ↦ ok (from_bytes bs) rest ]

-- `_get_integer`
pub get_integer : ℕ → List ℕ → Result ℕ
get_integer cookie s =
    if cookie == 0
    then ok 0 s
    else if cookie == 1
    then read_number 1 s
    else if cookie == 2
    then read_number 2 s
    else if cookie == 4
    then read_number 4 s
    else invalid

-- `_get_number`, as a Lua value
pub get_number : ℕ → List ℕ → Result Value
get_number cookie s =
    if cookie == 8 then into number (read_number 8 s) else into integer (get_integer cookie s)

-- `_get_buffer`: a NULL from `rb_read` is not checked.
pub get_buffer : ℕ → List ℕ → Result Value
get_buffer len s = elim (rb_read len s) [ none ↦ crash | some (bs, rest) ↦ ok (string bs) rest ]

-- The case `TYPE_LONG_STRING`
pub get_long_string : ℕ → List ℕ → Result Value
get_long_string cookie s =
    if cookie == 2
    then (read_number 2 s >>= get_buffer)
    else if cookie == 4
    then (read_number 4 s >>= get_buffer)
    else invalid

abbrev pub is_nil : Value → Bool
is_nil nil = true
is_nil _ = false

-- `(int)` of a number; that of a double is the C compiler's.
module _ (to_int : ℕ → ℕ) where
  abbrev pub int_of : Value → ℕ
  int_of (integer x) = x
  int_of (number x) = to_int x
  int_of _ = 0

  -- The start of `_unpack_table`: the length of the array part, an `int` that may be negative.
  pub get_array_size : ℕ → List ℕ → Result ℕ
  get_array_size cookie s =
      if cookie == max_cookie - 1
      then (read_number 1 s >>= λ t rest.
          if t % 8 == type_number then into int_of (get_number (t / 8) rest) else invalid)
      else ok cookie s

  -- `_unpack_one`, with `_push_value` in its second part, and the loops of `_unpack_table`: the
  -- elements left of the array part, and the entries up to a nil.
  mutual
    pub unpack_one : ℕ → List ℕ → Result Value
    unpack_one zero s = out_of_fuel
    unpack_one (suc fuel) [] = invalid
    unpack_one (suc fuel) (t ∷ s) =
        let type = t % 8 in
        let cookie = t / 8 in
        let of_table : Result Value = get_array_size cookie s >>= λ size s₁.
        unpack_items fuel (if leb (2 ^ 31) size then 0 else size) s₁ >>= λ vs s₂.
        unpack_entries fuel s₂ >>= λ es s₃. ok (table vs es) s₃ in
        if type == 0
        then ok nil s
        else if type == 1
        then ok (boolean (not (cookie == 0))) s
        else if type == 2
        then get_number cookie s
        else if type == 3
        then into userdata (read_number 8 s)
        else if type == 4
        then get_buffer cookie s
        else if type == 5
        then get_long_string cookie s
        else if type == 6
        then of_table
        else into remote (get_integer cookie s)

    pub unpack_items : ℕ → ℕ → List ℕ → Result Items
    unpack_items zero n s = out_of_fuel
    unpack_items (suc fuel) zero s = ok no_items s
    unpack_items (suc fuel) (suc n) s =
        unpack_one fuel s >>= λ v s₁. unpack_items fuel n s₁ >>= λ vs s₂. ok (item v vs) s₂

    pub unpack_entries : ℕ → List ℕ → Result Entries
    unpack_entries zero s = out_of_fuel
    unpack_entries (suc fuel) s = unpack_one fuel s >>= λ k s₁.
        let more : Result Entries =
          unpack_one fuel s₁ >>= λ v s₂. unpack_entries fuel s₂ >>= λ es s₃. ok (entry k v es) s₃ in
        if is_nil k then ok no_entries s₁ else more

  -- The loop of `_luaseri_unpack`: values up to the end of the stream.
  pub unpack_all : ℕ → List ℕ → Result (List Value)
  unpack_all zero s = out_of_fuel
  unpack_all (suc fuel) [] = ok [] []
  unpack_all (suc fuel) (t ∷ s) =
      unpack_one fuel (t ∷ s) >>= λ v rest. unpack_all fuel rest >>= λ vs end. ok (v ∷ vs) end

  -- `_luaseri_unpack` of a stream. Each value takes a byte or more and two calls at most, which
  -- bounds the fuel.
  pub luaseri_unpack : List ℕ → Result (List Value)
  luaseri_unpack s = unpack_all (2 * length s + 2) s
