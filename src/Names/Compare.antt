-- ===== src/Names/Compare.antt =====
-- `strcmp` is a strict order of the names.
use Prim.Native.Nat.{lt, eq, gt}
use dn_server.Common.{ℕ, ◌≡◌, refl, List, [], ◌∷◌, arith}
use dn_server.Names.{strcmp}

pub strcmp_self : (a : List ℕ) → strcmp a a ≡ eq
unfolding strcmp
strcmp_self [] = refl
strcmp_self (x ∷ xs) = ground (arith, strcmp_self xs)

pub eq_of_strcmp : (a b : List ℕ) → strcmp a b ≡ eq → a ≡ b
unfolding strcmp
eq_of_strcmp [] [] h = refl
eq_of_strcmp [] (y ∷ ys) h = ground arith
eq_of_strcmp (x ∷ xs) [] h = ground arith
eq_of_strcmp (x ∷ xs) (y ∷ ys) h = ground (arith, eq_of_strcmp xs ys)

pub strcmp-flip : (a b : List ℕ) → strcmp a b ≡ gt → strcmp b a ≡ lt
unfolding strcmp
strcmp-flip [] [] h = ground arith
strcmp-flip [] (y ∷ ys) h = ground arith
strcmp-flip (x ∷ xs) [] h = refl
strcmp-flip (x ∷ xs) (y ∷ ys) h = ground (arith, strcmp-flip xs ys)

pub strcmp_trans : (a b c : List ℕ) → strcmp a b ≡ lt → strcmp b c ≡ lt → strcmp a c ≡ lt
unfolding strcmp
strcmp_trans [] [] c h k = ground arith
strcmp_trans [] (y ∷ ys) [] h k = ground arith
strcmp_trans [] (y ∷ ys) (z ∷ zs) h k = refl
strcmp_trans (x ∷ xs) [] c h k = ground arith
strcmp_trans (x ∷ xs) (y ∷ ys) [] h k = ground arith
strcmp_trans (x ∷ xs) (y ∷ ys) (z ∷ zs) h k = ground (arith, strcmp_trans xs ys zs)
