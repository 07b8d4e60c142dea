-- ===== src/Names/Tests.antt =====
-- Runs of the name table, and each theorem at an input.
use dn_server.Common.{ℕ, zero, suc, ◌≡◌, refl, List, [], ◌∷◌, arith}
use dn_server.Names.{
  NameTable, no_entry, strcmp, search, inserted, insert_name, insert_name_before, open_cell,
  copy_names, remove_names, compact_names,
}
use dn_server.Names.Lookup.{IsSorted, IsValid}
use dn_server.Names.Insert.{Inserts, insert_name-Inserts}

abbrev pub login : List ℕ
login = b'l' ∷ b'o' ∷ b'g' ∷ b'i' ∷ b'n' ∷ []

abbrev log : List ℕ
log = b'l' ∷ b'o' ∷ b'g' ∷ []

abbrev pub db : List ℕ
db = b'd' ∷ b'b' ∷ []

-- A full table of two names.
abbrev pub two_names : NameTable
two_names = record {
  name_cap = 2;
  name_count = 2;
  name = record { name = db; handle = 5 } ∷ record { name = login; handle = 9 } ∷ [];
}

two_names-IsSorted : IsSorted two_names.name 2
unfolding strcmp
two_names-IsSorted zero zero h l = absurd (omega arith)
two_names-IsSorted zero (suc zero) h l = refl
two_names-IsSorted zero (suc (suc j)) h l = absurd (omega arith)
two_names-IsSorted (suc i) zero h l = absurd (omega arith)
two_names-IsSorted (suc i) (suc zero) h l = absurd (omega arith)
two_names-IsSorted (suc i) (suc (suc j)) h l = absurd (omega arith)

pub two_names-IsValid : IsValid two_names
two_names-IsValid = record { stored = omega arith; sorted = two_names-IsSorted }

-- The array doubles, and the name goes between the two.
insert_name_runs :
    insert_name two_names log 7
    ≡ inserted (record {
      name_cap = 4;
      name_count = 3;
      name =
          record { name = db; handle = 5 }
          ∷ record { name = log; handle = 7 }
          ∷ record { name = login; handle = 9 }
          ∷ no_entry
          ∷ [];
    })
unfolding insert_name search strcmp insert_name_before open_cell copy_names
insert_name_runs = refl

remove_names_runs : remove_names two_names 5 ≡ record two_names {
  name_count = 1;
  name = record { name = login; handle = 9 } ∷ record { name = login; handle = 9 } ∷ [];
}
unfolding remove_names compact_names
remove_names_runs = refl

insert_name-Inserts_example : Inserts two_names log 7 (insert_name two_names log 7)
insert_name-Inserts_example = insert_name-Inserts two_names log 7 two_names-IsValid
