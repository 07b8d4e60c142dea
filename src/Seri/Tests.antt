-- ===== src/Seri/Tests.antt =====
-- Messages of dn/lualib-src/lua-seri.c, packed and unpacked, and streams that are no message.
use dn_server.Common.{ℕ, ◌+◌, ◌*◌, ◌≡◌, refl, true, List, [], ◌∷◌, map, some, replicate, arith}
use dn_server.Seri.{
  Value, boolean, integer, string, table, remote, no_items, item, no_entries, entry, Pushes, concat,
  pack_from, pack_value, pack_one, pack_items, pack_entries, wb_integer, wb_string, wb_array_size,
}
use dn_server.Seri.Packs.{AllShallow}
use dn_server.Seri.Read.{ok, crash, luaseri_unpack}
use dn_server.Seri.Read.Leaves.{received}
use dn_server.Seri.Read.Whole.{AllFit, luaseri_round_trip}
use dn_server.Seri.Read.Total.{Ended, luaseri_unpack-Ended, luaseri_unpack-crash}
use dn_server.Seri.Blocks.{luaseri_pack}
use dn_server.Seri.Blocks.Message.{luaseri_pack-concat}

-- A table with two elements, of which the traversal gives both, and one named entry.
abbrev message : List Value
message =
    integer 300
    ∷ table (item (string (1 ∷ 2 ∷ [])) (item (boolean true) no_items)) (
        entry (integer 1) (string (1 ∷ 2 ∷ []))
          (entry (integer 2) (boolean true) (entry (string (9 ∷ [])) (remote 7) no_entries)))
    ∷ []

abbrev zero_to_int : ℕ → ℕ
zero_to_int x = 0

-- The types and cookies of each value, from the lowest bits up.
message_pushes :
    pack_from message
    ≡ some (
        (18 ∷ [])
        ∷ (44 ∷ 1 ∷ [])
        ∷ (22 ∷ [])
        ∷ (20 ∷ [])
        ∷ (1 ∷ 2 ∷ [])
        ∷ (9 ∷ [])
        ∷ (12 ∷ [])
        ∷ (9 ∷ [])
        ∷ (15 ∷ [])
        ∷ (7 ∷ [])
        ∷ (0 ∷ [])
        ∷ [])
unfolding pack_from pack_one pack_value pack_items pack_entries wb_integer wb_string wb_array_size
message_pushes = refl

message-AllFit : AllFit message
message-AllFit = (
  omega arith,
  (
    (
      omega arith,
      (omega arith, (tt, tt)),
      (
        omega arith,
        refl,
        omega arith,
        (omega arith, refl, tt, (omega arith, refl, omega arith, tt)),
      ),
    ),
    tt,
  ),
)

message-AllShallow : AllShallow message
message-AllShallow =
    (tt, ((((31, refl, tt), ((31, refl, tt), tt)), (tt, (tt, ((31, refl, tt, tt), tt)))), tt))

luaseri_round_trip_example :
    (ps : Pushes) × (pack_from message ≡ some ps)
    × (luaseri_unpack zero_to_int (concat ps) ≡ ok (map received message) [])
luaseri_round_trip_example =
    luaseri_round_trip zero_to_int message message-AllFit message-AllShallow

abbrev long_string : List Value
long_string = string (replicate 300 5) ∷ []

abbrev long_pushes : Pushes
long_pushes = (21 ∷ []) ∷ (44 ∷ 1 ∷ []) ∷ replicate 300 5 ∷ []

long_string_pushes : pack_from long_string ≡ some long_pushes
unfolding pack_from pack_one pack_value wb_string
long_string_pushes = refl

luaseri_pack-concat_example : luaseri_pack long_string ≡ some (concat long_pushes)
luaseri_pack-concat_example =
    luaseri_pack-concat long_string long_pushes long_string_pushes (omega arith)

luaseri_unpack-Ended_example : Ended (luaseri_unpack zero_to_int ((6 + 31 * 8) ∷ 18 ∷ []))
luaseri_unpack-Ended_example = luaseri_unpack-Ended zero_to_int ((6 + 31 * 8) ∷ 18 ∷ [])

luaseri_unpack-crash_example : luaseri_unpack zero_to_int ((4 + 5 * 8) ∷ 65 ∷ []) ≡ crash
luaseri_unpack-crash_example =
    luaseri_unpack-crash zero_to_int 5 (65 ∷ []) (omega arith) (omega arith)
