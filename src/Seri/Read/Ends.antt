-- ===== src/Seri/Read/Ends.antt =====
-- Where the reads of dn/lualib-src/lua-seri.c below a value leave the stream.
use dn_server.Common.{
  ℕ, zero, suc, ◌-◌, ◌/◌, ◌%◌, ◌≤◌, Bool, true, false, List, [], ◌∷◌, Option, none, some, ◌==◌,
  if◌then◌else◌, length, arith,
}
use dn_server.Seri.{string, integer, number, max_cookie, type_number}
use dn_server.Seri.Read.{
  Result, ok, invalid, crash, out_of_fuel, ◌>>=◌, into, rb_read, read_number, get_integer,
  get_number, get_buffer, get_long_string, from_bytes, int_of, get_array_size,
}

-- The fuel was enough, and at most `n` bytes are left.
abbrev pub Ends : {A : Type 0} → ℕ → Result A → Type 0
Ends n (ok a rest) = length rest ≤ n
Ends n invalid = Unit
Ends n crash = Unit
Ends n out_of_fuel = ⊥

pub bind-Ends :
    {A B : Type 0} (m n : ℕ) (r : Result A) (f : A → List ℕ → Result B)
    → Ends m r
    → ((a : A) (s : List ℕ) → length s ≤ m → Ends n (f a s))
    → Ends n (r >>= f)
bind-Ends m n (ok a s) f h k = k a s h
bind-Ends m n invalid f h k = tt
bind-Ends m n crash f h k = tt
bind-Ends m n out_of_fuel f h k = absurd h

pub into-Ends : {A B : Type 0} (n : ℕ) (f : A → B) (r : Result A) → Ends n r → Ends n (into f r)
into-Ends n f r h = bind-Ends n n r (λ a s. ok (f a) s) h (λ a s l. l)

pub if-Ends :
    {A : Type 0} (n : ℕ) (b : Bool) (r q : Result A)
    → Ends n r
    → Ends n q
    → Ends n (if b then r else q)
if-Ends n true r q h k = h
if-Ends n false r q h k = k

pub Ends-le : {A : Type 0} (m n : ℕ) (r : Result A) → m ≤ n → Ends m r → Ends n r
Ends-le m n (ok a s) l h = omega arith
Ends-le m n invalid l h = tt
Ends-le m n crash l h = tt
Ends-le m n out_of_fuel l h = absurd h

-- What `rb_read` leaves is no longer than the stream.
abbrev Left : ℕ → Option (List ℕ × List ℕ) → Type 0
Left n none = Unit
Left n (some (bs, rest)) = length rest ≤ n

Left-cons :
    (n b : ℕ) (r : Option (List ℕ × List ℕ))
    → Left n r
    → Left (suc n) (elim r [ none ↦ none | some (bs, rest) ↦ some (b ∷ bs, rest) ])
Left-cons n b none h = tt
Left-cons n b (some (bs, rest)) h = omega arith

rb_read-Left : (n : ℕ) (s : List ℕ) → Left (length s) (rb_read n s)
unfolding rb_read
rb_read-Left zero s = omega arith
rb_read-Left (suc n) [] = tt
rb_read-Left (suc n) (b ∷ s) = Left-cons (length s) b (rb_read n s) (rb_read-Left n s)

Left-Ends :
    {A : Type 0} (n : ℕ) (r : Option (List ℕ × List ℕ)) (failed : Result A) (f : List ℕ → A)
    → Left n r
    → Ends n failed
    → Ends n (elim r [ none ↦ failed | some (bs, rest) ↦ ok (f bs) rest ])
Left-Ends n none failed f h k = k
Left-Ends n (some (bs, rest)) failed f h k = h

pub read_number-Ends : (n : ℕ) (s : List ℕ) → Ends (length s) (read_number n s)
unfolding read_number
read_number-Ends n s =
    Left-Ends (length s) (rb_read n s) invalid (λ bs. from_bytes bs) (rb_read-Left n s) tt

pub get_buffer-Ends : (n : ℕ) (s : List ℕ) → Ends (length s) (get_buffer n s)
unfolding get_buffer
get_buffer-Ends n s =
    Left-Ends (length s) (rb_read n s) crash (λ bs. string bs) (rb_read-Left n s) tt

pub get_integer-Ends : (cookie : ℕ) (s : List ℕ) → Ends (length s) (get_integer cookie s)
unfolding get_integer
get_integer-Ends cookie s =
    let n = length s in
    if-Ends n (cookie == 0) (ok 0 s) _ (omega arith) (
      if-Ends n (cookie == 1) (read_number 1 s) _ (read_number-Ends 1 s) (
        if-Ends n (cookie == 2) (read_number 2 s) _ (read_number-Ends 2 s)
          (if-Ends n (cookie == 4) (read_number 4 s) invalid (read_number-Ends 4 s) tt)))

pub get_number-Ends : (cookie : ℕ) (s : List ℕ) → Ends (length s) (get_number cookie s)
unfolding get_number
get_number-Ends cookie s =
    if-Ends (length s) (cookie == 8) (into number (read_number 8 s)) _
      (into-Ends (length s) number (read_number 8 s) (read_number-Ends 8 s))
      (into-Ends (length s) integer (get_integer cookie s) (get_integer-Ends cookie s))

string_after : (n m : ℕ) (s : List ℕ) → Ends (length s) (read_number n s >>= get_buffer)
string_after n m s =
    bind-Ends (length s) (length s) (read_number n s) get_buffer (read_number-Ends n s)
      (λ len rest h.
        Ends-le (length rest) (length s) (get_buffer len rest) h (get_buffer-Ends len rest))

pub get_long_string-Ends : (cookie : ℕ) (s : List ℕ) → Ends (length s) (get_long_string cookie s)
unfolding get_long_string
get_long_string-Ends cookie s =
    if-Ends (length s) (cookie == 2) (read_number 2 s >>= get_buffer) _ (string_after 2 0 s) (
      if-Ends (length s) (cookie == 4) (read_number 4 s >>= get_buffer) invalid (string_after 4 0 s)
        tt)

pub get_array_size-Ends :
    (to_int : ℕ → ℕ) (cookie : ℕ) (s : List ℕ) → Ends (length s) (get_array_size to_int cookie s)
unfolding get_array_size
get_array_size-Ends to_int cookie s =
    if-Ends (length s) (cookie == max_cookie - 1) _ (ok cookie s)
      (bind-Ends (length s) (length s) (read_number 1 s) _ (read_number-Ends 1 s) (λ t rest h.
        if-Ends (length s) (t % 8 == type_number) (into (int_of to_int) (get_number (t / 8) rest))
          invalid
          (into-Ends (length s) (int_of to_int) (get_number (t / 8) rest) (
            Ends-le (length rest) (length s) (get_number (t / 8) rest) h
              (get_number-Ends (t / 8) rest)))
          tt))
      (omega arith)
