-- ===== src/Seri/Read/Numbers.antt =====
-- What is read back of one push or two: numbers, strings and the length of an array part.
use dn_server.Common.{
  ℕ, zero, suc, ◌+◌, ◌-◌, ◌*◌, ◌/◌, ◌%◌, ◌^◌, ◌<◌, ◌≡◌, refl, sym, ap, ◌∙◌, inl, inr, true, false,
  List, [], ◌∷◌, ◌++◌, some, ltb, leb, ◌==◌, if◌then◌else◌, length, ==→eq, Bool-cases, append-nil,
  append_assoc, arith,
}
use dn_server.Seri.{
  type_short_string, type_long_string, integer, string, Pushes, bytes, push_type, wb_integer,
  wb_string, wb_array_size, concat, type_number, type_table, max_cookie,
}
use dn_server.Seri.Read.{
  Result, ok, invalid, rb_read, from_bytes, read_number, get_integer, get_number, get_buffer,
  get_long_string, ◌>>=◌, get_array_size,
}

rb_read-append : (bs rest : List ℕ) → rb_read (length bs) (bs ++ rest) ≡ some (bs, rest)
unfolding rb_read
rb_read-append [] rest = refl
rb_read-append (b ∷ bs) rest = rw (rb_read-append bs rest) refl

length-bytes : (n v : ℕ) → length (bytes n v) ≡ n
length-bytes zero v = refl
length-bytes (suc n) v = ap suc (length-bytes n (v / 256))

read_number-bytes :
    (n v : ℕ) (rest : List ℕ) → read_number n (bytes n v ++ rest) ≡ ok (from_bytes (bytes n v)) rest
unfolding read_number
read_number-bytes n v rest =
    let e : rb_read n (bytes n v ++ rest) ≡ some (bytes n v, rest) =
      ap (λ k. rb_read k (bytes n v ++ rest)) (sym (length-bytes n v))
      ∙ rb_read-append (bytes n v) rest in
    rw (e, read_number) refl

-- The sizes of the format.
read-1 : (v : ℕ) (rest : List ℕ) → v < 2 ^ 8 → read_number 1 (bytes 1 v ++ rest) ≡ ok v rest
read-1 v rest h = read_number-bytes 1 v rest ∙ ap (λ k. ok k rest) (omega arith)

read-2 : (v : ℕ) (rest : List ℕ) → v < 2 ^ 16 → read_number 2 (bytes 2 v ++ rest) ≡ ok v rest
read-2 v rest h = read_number-bytes 2 v rest ∙ ap (λ k. ok k rest) (omega arith)

read-4 : (v : ℕ) (rest : List ℕ) → v < 2 ^ 32 → read_number 4 (bytes 4 v ++ rest) ≡ ok v rest
read-4 v rest h = read_number-bytes 4 v rest ∙ ap (λ k. ok k rest) (omega arith)

pub read-8 : (v : ℕ) (rest : List ℕ) → v < 2 ^ 64 → read_number 8 (bytes 8 v ++ rest) ≡ ok v rest
read-8 v rest h = read_number-bytes 8 v rest ∙ ap (λ k. ok k rest) (omega arith)

-- The first byte has a type and a cookie, and the rest is read by the cookie as `a`.
pub record Tagged {A : Type 0} (read : ℕ → List ℕ → Result A) (type : ℕ) (a : A) (ps : Pushes)
    : Type 0 where
  pub cookie : ℕ
  pub payload : List ℕ
  pub split : concat ps ≡ (type + cookie * 8) ∷ payload
  pub small : cookie < 32
  pub reads : (rest : List ℕ) → read cookie (payload ++ rest) ≡ ok a rest

tag :
    {A : Type 0} (read : ℕ → List ℕ → Result A) (type cookie : ℕ) (a : A) (ps : Pushes)
    → type < 8
    → cookie < 32
    → ((rest : List ℕ) → read cookie (concat ps ++ rest) ≡ ok a rest)
    → Tagged read type a (push_type type cookie ∷ ps)
tag read type cookie a ps t c reads = record {
  cookie = cookie;
  payload = concat ps;
  split = ap (λ b. b ∷ concat ps) (omega arith);
  small = c;
  reads = reads;
}

-- `wb_integer` picks the shortest of the four sizes, and all are read back.
pub get_integer-wb_integer :
    (v type : ℕ) → v < 2 ^ 32 → type < 8 → Tagged get_integer type v (wb_integer v type)
unfolding wb_integer get_integer
get_integer-wb_integer v type h t = elim (Bool-cases (v == 0)) [
  | inl z ↦
      rw z
        (tag get_integer type 0 v [] t (omega arith) (λ rest. ap (λ k. ok k rest) (ground arith)))
  | inr nz ↦ rw nz (elim (Bool-cases (leb (2 ^ 31) v)) [
    | inl neg ↦
        rw neg (tag get_integer type 4 v (bytes 4 v ∷ []) t (omega arith) (λ rest. read-4 v rest h))
    | inr pos ↦ rw pos (elim (Bool-cases (ltb v 0x100)) [
      | inl one ↦ rw one (
          tag get_integer type 1 v (bytes 1 v ∷ []) t (omega arith)
            (λ rest. read-1 v rest (ground arith)))
      | inr more ↦ rw more (elim (Bool-cases (ltb v 0x10000)) [
        | inl two ↦ rw two (
            tag get_integer type 2 v (bytes 2 v ∷ []) t (omega arith)
              (λ rest. read-2 v rest (ground arith)))
        | inr four ↦
            rw four
              (tag get_integer type 4 v (bytes 4 v ∷ []) t (omega arith) (λ rest. read-4 v rest h))
      ])
    ])
  ])
]

get_buffer-append : (s rest : List ℕ) → get_buffer (length s) (s ++ rest) ≡ ok (string s) rest
unfolding get_buffer
get_buffer-append s rest = rw (rb_read-append s rest, get_buffer) refl

-- A string is read back by its type, short or long.
pub data StringTagged (s : List ℕ) (ps : Pushes) : Type 0 where
  short : Tagged get_buffer type_short_string (string s) ps → StringTagged s ps
  long : Tagged get_long_string type_long_string (string s) ps → StringTagged s ps

short_reads :
    (s rest : List ℕ)
    → get_buffer (length s) (concat (if ltb 0 (length s) then s ∷ [] else []) ++ rest)
      ≡ ok (string s) rest
unfolding get_buffer rb_read
short_reads [] rest = refl
short_reads (b ∷ bs) rest =
    let pos : ltb 0 (length (b ∷ bs)) ≡ true = ground arith in
    let e : concat ((b ∷ bs) ∷ []) ++ rest ≡ (b ∷ bs) ++ rest = simp (append-nil) in
    rw pos (ap (get_buffer (length (b ∷ bs))) e ∙ get_buffer-append (b ∷ bs) rest)

long_reads :
    (s : List ℕ) (size : ℕ) (rest : List ℕ)
    → ((tail : List ℕ) → read_number size (bytes size (length s) ++ tail) ≡ ok (length s) tail)
    → (read_number size (concat (bytes size (length s) ∷ s ∷ []) ++ rest) >>= get_buffer)
      ≡ ok (string s) rest
long_reads s size rest reads =
    let b = bytes size (length s) in
    let e : concat (b ∷ s ∷ []) ++ rest ≡ b ++ (s ++ rest) = simp (append-nil, append_assoc) in
    rw (e, reads (s ++ rest)) (get_buffer-append s rest)

pub get_string-wb_string : (s : List ℕ) → length s < 2 ^ 31 → StringTagged s (wb_string s)
unfolding wb_string get_long_string
get_string-wb_string s h =
    let e : length s % 2 ^ 32 ≡ length s = omega arith in
    let pos : leb (2 ^ 31) (length s) ≡ false = ground arith in
    rw e (
      rw pos (elim (Bool-cases (ltb (length s) max_cookie)) [
        | inl small ↦ rw small (
            short (
              tag get_buffer type_short_string (length s) (string s)
                (if ltb 0 (length s) then s ∷ [] else []) (omega arith) (ground arith)
                (short_reads s)))
        | inr big ↦ rw big (elim (Bool-cases (ltb (length s) 0x10000)) [
          | inl two ↦ rw two (
              long (
                tag get_long_string type_long_string 2 (string s) (bytes 2 (length s) ∷ s ∷ [])
                  (omega arith) (omega arith)
                  (λ rest. long_reads s 2 rest (λ tail. read-2 (length s) tail (ground arith)))))
          | inr four ↦ rw four (
              long (
                tag get_long_string type_long_string 4 (string s) (bytes 4 (length s) ∷ s ∷ [])
                  (omega arith) (omega arith)
                  (λ rest. long_reads s 4 rest (λ tail. read-4 (length s) tail (omega arith)))))
        ])
      ]))

read_byte : (b : ℕ) (s : List ℕ) → read_number 1 (b ∷ s) ≡ ok b s
unfolding read_number rb_read
read_byte b s = ap (λ k. ok k s) (omega arith)

get_integer-8 : (c : ℕ) (s : List ℕ) → c ≡ 8 → get_integer c s ≡ invalid
unfolding get_integer
get_integer-8 c s e = rw e refl

-- What `_get_integer` reads, `_get_number` reads as an integer.
pub get_number-get_integer :
    (cookie : ℕ) (s : List ℕ) {x : ℕ} {rest : List ℕ}
    → get_integer cookie s ≡ ok x rest
    → get_number cookie s ≡ ok (integer x) rest
get_number-get_integer cookie s e = elim (Bool-cases (cookie == 8)) [
  | inl eight ↦ cc (get_integer-8 cookie s (==→eq cookie 8 eight))
  | inr other ↦ unfold get_number in rw (other, e, get_number) refl
]

pub byte_type : (type cookie : ℕ) → type < 8 → (type + cookie * 8) % 8 ≡ type
byte_type type cookie h = omega arith

pub byte_cookie : (type cookie : ℕ) → type < 8 → (type + cookie * 8) / 8 ≡ cookie
byte_cookie type cookie h = omega arith

get_size :
    (to_int : ℕ → ℕ) (cookie x : ℕ) (s rest : List ℕ)
    → get_integer cookie s ≡ ok x rest
    → get_array_size to_int (max_cookie - 1) ((type_number + cookie * 8) ∷ s) ≡ ok x rest
unfolding get_array_size
get_size to_int cookie x s rest e = rw (read_byte (type_number + cookie * 8) s) (
    rw (byte_type type_number cookie (omega arith), byte_cookie type_number cookie (omega arith))
      (rw (get_number-get_integer cookie s e) refl))

-- The length of an array part is read back, and is below 2 ^ 31.
pub get_array_size-wb_array_size :
    (to_int : ℕ → ℕ) (size : ℕ)
    → size < 2 ^ 31
    → Tagged (get_array_size to_int) type_table size (wb_array_size size)
unfolding wb_array_size
get_array_size-wb_array_size to_int size h = elim (Bool-cases (leb (max_cookie - 1) size)) [
  | inr small ↦
      let other : (size == max_cookie - 1) ≡ false = ground arith in
      rw small (
        tag (get_array_size to_int) type_table size size [] (omega arith) (ground arith)
          (λ rest. unfold get_array_size in rw (other, get_array_size) refl))
  | inl big ↦
      let t = get_integer-wb_integer size type_number (omega arith) (omega arith) in
      rw big (
        tag (get_array_size to_int) type_table (max_cookie - 1) size (wb_integer size type_number)
          (omega arith) (omega arith)
          (λ rest.
            ap (λ s. get_array_size to_int (max_cookie - 1) (s ++ rest)) t.split
            ∙ get_size to_int t.cookie size (t.payload ++ rest) rest (t.reads rest)))
]
