-- ===== src/Seri/Read/Leaves.antt =====
-- What was packed is unpacked again: the values without a table, and what a table comes back as.
use dn_server.Common.{
  ℕ, zero, suc, ◌+◌, ◌*◌, ◌^◌, ◌<◌, ◌≡◌, refl, ap, ◌∙◌, Bool, true, false, List, [], ◌∷◌, ◌++◌,
  Option, some, leb, if◌then◌else◌, length, append_assoc, arith,
}
use dn_server.Seri.{
  Value, Items, Entries, nil, boolean, integer, number, userdata, string, table, remote, other,
  no_items, item, no_entries, entry, Pushes, rawlen, wb_nil, wb_integer, wb_string, wb_number,
  wb_pointer, wb_boolean, concat, is_index, check_depth, type_number, type_remote,
}
use dn_server.Seri.Read.{
  Result, ok, ◌>>=◌, into, get_integer, get_number, get_buffer, get_long_string, get_array_size,
  is_nil, unpack_one, unpack_items, unpack_entries,
}
use dn_server.Seri.Read.Numbers.{
  Tagged, short, long, read-8, get_integer-wb_integer, get_string-wb_string, get_number-get_integer,
  byte_type, byte_cookie,
}

-- The values that fit the fields of the format; a key of an entry is never nil.
abbrev mutual
  pub Fits : Value → Type 0
  Fits nil = Unit
  Fits (boolean b) = Unit
  Fits (integer x) = x < 2 ^ 32
  Fits (number x) = x < 2 ^ 64
  Fits (userdata p) = p < 2 ^ 64
  Fits (string s) = length s < 2 ^ 31
  Fits (remote handle) = handle < 2 ^ 32
  Fits other = Unit
  Fits (table vs es) = (rawlen vs < 2 ^ 31) × FitItems vs × FitEntries es

  pub FitItems : Items → Type 0
  FitItems no_items = Unit
  FitItems (item v vs) = Fits v × FitItems vs

  pub FitEntries : Entries → Type 0
  FitEntries no_entries = Unit
  FitEntries (entry k v es) = Fits k × (is_nil k ≡ false) × Fits v × FitEntries es

-- What is unpacked: each element of the array part once, by its index and not as an entry too.
abbrev mutual
  pub received : Value → Value
  received (table vs es) = table (received_items vs) (received_entries (rawlen vs) es)
  received nil = nil
  received (boolean b) = boolean b
  received (integer x) = integer x
  received (number x) = number x
  received (userdata p) = userdata p
  received (string s) = string s
  received (remote handle) = remote handle
  received other = other

  pub received_items : Items → Items
  received_items no_items = no_items
  received_items (item v vs) = item (received v) (received_items vs)

  pub received_entries : ℕ → Entries → Entries
  received_entries size no_entries = no_entries
  received_entries size (entry k v es) =
      if is_index size k
      then received_entries size es
      else entry (received k) (received v) (received_entries size es)

pub concat-append : (ps qs : Pushes) → concat (ps ++ qs) ≡ concat ps ++ concat qs
concat-append [] qs = refl
concat-append (p ∷ ps) qs = simp (concat-append ps qs, append_assoc)

pub check_depth-eq-some :
    (depth : ℕ) (r : Option Pushes) {ps : Pushes} → check_depth depth r ≡ some ps → r ≡ some ps
check_depth-eq-some depth r h = ground arith

-- One value by the type in its first byte.
module _ (to_int : ℕ → ℕ) (f cookie : ℕ) (s : List ℕ) where
  unpack_number : unpack_one to_int (suc f) ((2 + cookie * 8) ∷ s) ≡ get_number cookie s
  unfolding unpack_one
  unpack_number = rw (byte_type 2 cookie (omega arith), byte_cookie 2 cookie (omega arith)) refl

  pub unpack_short : unpack_one to_int (suc f) ((4 + cookie * 8) ∷ s) ≡ get_buffer cookie s
  unfolding unpack_one
  unpack_short = rw (byte_type 4 cookie (omega arith), byte_cookie 4 cookie (omega arith)) refl

  unpack_long : unpack_one to_int (suc f) ((5 + cookie * 8) ∷ s) ≡ get_long_string cookie s
  unfolding unpack_one
  unpack_long = rw (byte_type 5 cookie (omega arith), byte_cookie 5 cookie (omega arith)) refl

  unpack_remote :
      unpack_one to_int (suc f) ((7 + cookie * 8) ∷ s) ≡ into remote (get_integer cookie s)
  unfolding unpack_one
  unpack_remote = rw (byte_type 7 cookie (omega arith), byte_cookie 7 cookie (omega arith)) refl

  pub unpack_table : unpack_one to_int (suc f) ((6 + cookie * 8) ∷ s) ≡ (
      get_array_size to_int cookie s >>= λ size s₁.
      unpack_items to_int f (if leb (2 ^ 31) size then 0 else size) s₁ >>= λ vs s₂.
      unpack_entries to_int f s₂ >>= λ es s₃. ok (table vs es) s₃)
  unfolding unpack_one
  unpack_table = rw (byte_type 6 cookie (omega arith), byte_cookie 6 cookie (omega arith)) refl

module _ (to_int : ℕ → ℕ) where
  -- With fuel above the length of its bytes a value is read off the front of any stream.
  abbrev pub Unpacks : Pushes → Value → Type 0
  Unpacks ps v =
      (0 < length (concat ps))
      × ((rest : List ℕ) (f : ℕ)
          → length (concat ps) < f
          → unpack_one to_int f (concat ps ++ rest) ≡ ok v rest)

  abbrev pub ItemsUnpack : Pushes → Items → Type 0
  ItemsUnpack ps vs =
      (rest : List ℕ) (f : ℕ)
      → length (concat ps) + 1 < f
      → unpack_items to_int f (rawlen vs) (concat ps ++ rest) ≡ ok vs rest

  abbrev pub EntriesUnpack : Pushes → Entries → Type 0
  EntriesUnpack ps es =
      (rest : List ℕ) (f : ℕ)
      → length (concat ps) + 1 < f
      → unpack_entries to_int f (concat ps ++ (0 ∷ rest)) ≡ ok es rest

  pub spend :
      (ps : Pushes) (v : Value)
      → 0 < length (concat ps)
      → ((rest : List ℕ) (f : ℕ) → unpack_one to_int (suc f) (concat ps ++ rest) ≡ ok v rest)
      → Unpacks ps v
  spend ps v pos k = (pos, go)
    where
      go :
          (rest : List ℕ) (f : ℕ)
          → length (concat ps) < f
          → unpack_one to_int f (concat ps ++ rest) ≡ ok v rest
      go rest zero h = absurd (omega arith)
      go rest (suc f) h = k rest f

  -- A leaf, by the read of its type.
  leaf :
      {A : Type 0} (read : ℕ → List ℕ → Result A) (type : ℕ) (a : A) (ps : Pushes) (v : Value)
      → Tagged read type a ps
      → ((rest : List ℕ) (f cookie : ℕ) (s : List ℕ)
          → read cookie s ≡ ok a rest
          → unpack_one to_int (suc f) ((type + cookie * 8) ∷ s) ≡ ok v rest)
      → Unpacks ps v
  leaf read type a ps v t k = spend ps v (omega (arith, ap length t.split)) (λ rest f.
      ap (λ s. unpack_one to_int (suc f) (s ++ rest)) t.split
      ∙ k rest f t.cookie (t.payload ++ rest) (t.reads rest))

  pub integer_Unpacks : (x : ℕ) → x < 2 ^ 32 → Unpacks (wb_integer x type_number) (integer x)
  integer_Unpacks x h =
      leaf get_integer 2 x (wb_integer x type_number) (integer x)
        (get_integer-wb_integer x 2 h (omega arith))
        (λ rest f cookie s e. unpack_number to_int f cookie s ∙ get_number-get_integer cookie s e)

  pub remote_Unpacks : (x : ℕ) → x < 2 ^ 32 → Unpacks (wb_integer x type_remote) (remote x)
  remote_Unpacks x h =
      leaf get_integer 7 x (wb_integer x type_remote) (remote x)
        (get_integer-wb_integer x 7 h (omega arith))
        (λ rest f cookie s e. unpack_remote to_int f cookie s ∙ ap (into remote) e)

  pub string_Unpacks : (s : List ℕ) → length s < 2 ^ 31 → Unpacks (wb_string s) (string s)
  string_Unpacks s h = elim (get_string-wb_string s h) [
    | short t ↦
        leaf get_buffer 4 (string s) (wb_string s) (string s) t
          (λ rest f cookie b e. unpack_short to_int f cookie b ∙ e)
    | long t ↦
        leaf get_long_string 5 (string s) (wb_string s) (string s) t
          (λ rest f cookie b e. unpack_long to_int f cookie b ∙ e)
  ]

  pub number-Unpacks : (x : ℕ) → x < 2 ^ 64 → Unpacks (wb_number x) (number x)
  unfolding unpack_one get_number
  number-Unpacks x h =
      spend (wb_number x) (number x) (omega arith) (λ rest f. ap (into number) (read-8 x rest h))

  pub userdata_Unpacks : (x : ℕ) → x < 2 ^ 64 → Unpacks (wb_pointer x) (userdata x)
  unfolding unpack_one
  userdata_Unpacks x h =
      spend (wb_pointer x) (userdata x) (omega arith)
        (λ rest f. ap (into userdata) (read-8 x rest h))

  pub nil_Unpacks : Unpacks wb_nil nil
  unfolding unpack_one
  nil_Unpacks = spend wb_nil nil (omega arith) (λ rest f. refl)

  pub boolean_Unpacks : (b : Bool) → Unpacks (wb_boolean b) (boolean b)
  unfolding unpack_one
  boolean_Unpacks true = spend (wb_boolean true) (boolean true) (omega arith) (λ rest f. refl)
  boolean_Unpacks false = spend (wb_boolean false) (boolean false) (omega arith) (λ rest f. refl)
