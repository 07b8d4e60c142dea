-- ===== src/GlobalNames/Tests.antt =====
-- The table of names at two names.
use dn_server.Common.{ℕ, ◌≡◌, refl, List, [], ◌∷◌, some}
use dn_server.GlobalNames.{
  HashMap, hash_new, hash_insert, hash_search, name_hash, same_prefix, search_chain, is_key,
}

abbrev chat : List ℕ
chat = 99 ∷ 104 ∷ 97 ∷ 116 ∷ []

-- The bytes behind the end of a name do not count.
abbrev padded : List ℕ
padded = 99 ∷ 104 ∷ 97 ∷ 116 ∷ 0 ∷ []

abbrev mail : List ℕ
mail = 109 ∷ 97 ∷ 105 ∷ 108 ∷ []

abbrev small_map : HashMap ℕ
small_map = hash_insert 4 (hash_insert 4 hash_new chat 0) mail 5

search_runs : (hash_search 4 small_map padded ≡ some 0) × (hash_search 4 small_map mail ≡ some 5)
unfolding hash_search hash_insert search_chain is_key same_prefix name_hash
search_runs = (refl, refl)
