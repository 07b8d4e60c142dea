-- ===== src/Seri/Read/Whole.antt =====
-- A whole message: the arguments of a call are packed, and unpacked up to the end of the stream.
use dn_server.Common.{
  ℕ, zero, suc, ◌+◌, ◌*◌, ◌<◌, ◌≡◌, refl, sym, ap, subst, ◌∙◌, List, [], ◌∷◌, ◌++◌, map, some,
  length, >>=-eq-some, arith,
}
use dn_server.Seri.{Value, Pushes, concat, pack_value, pack_one, pack_from}
use dn_server.Seri.Packs.{AllShallow, pack_from-Packed}
use dn_server.Seri.Read.{ok, ◌>>=◌, unpack_one, unpack_all, luaseri_unpack}
use dn_server.Seri.Read.Leaves.{Fits, received, concat-append, check_depth-eq-some}
use dn_server.Seri.Read.RoundTrip.{length-concat, pack_value-Unpacks}

abbrev pub AllFit : List Value → Type 0
AllFit [] = Unit
AllFit (v ∷ vs) = Fits v × AllFit vs

module _ (to_int : ℕ → ℕ) where
  unpack_all-step :
      (f : ℕ) (s : List ℕ)
      → 0 < length s
      → unpack_all to_int (suc f) s ≡ (
          unpack_one to_int f s >>= λ v rest.
          unpack_all to_int f rest >>= λ vs end. ok (v ∷ vs) end)
  unfolding unpack_all
  unpack_all-step f [] h = absurd (omega arith)
  unpack_all-step f (b ∷ s) h = refl

  unpack_all-pack_from :
      (vs : List Value) (ps : Pushes) (f : ℕ)
      → AllFit vs
      → pack_from vs ≡ some ps
      → length (concat ps) + 1 < f
      → unpack_all to_int f (concat ps) ≡ ok (map received vs) []
  unfolding pack_from pack_one unpack_all
  unpack_all-pack_from vs ps zero fits e h = absurd (omega arith)
  unpack_all-pack_from [] ps (suc f) fits e h =
      let q : [] ≡ ps = cc in subst (λ p. unpack_all to_int (suc f) (concat p) ≡ ok [] []) q refl
  unpack_all-pack_from (v ∷ vs) ps (suc f) (fit, fits) e h =
      let (first, a, e₁) = >>=-eq-some (pack_one 0 v) _ e in
      let (rest, b, e₂) = >>=-eq-some (pack_from vs) _ e₁ in
      let q : first ++ rest ≡ ps = cc in
      let (pos, one) =
        pack_value-Unpacks to_int v 0 first fit (check_depth-eq-some 0 (pack_value 0 v) a) in
      let n = length-concat first rest in
      let m : length (concat ps) ≡ length (concat (first ++ rest)) =
        ap (λ p. length (concat p)) (sym q) in
      let more = unpack_all-pack_from vs rest f fits b (omega (arith, n, m)) in
      subst (λ p. unpack_all to_int (suc f) (concat p) ≡ ok (received v ∷ map received vs) []) q
        (unpack_all-step f (concat (first ++ rest)) (omega (arith, n))
          ∙ rw (concat-append first rest)
              (rw (one (concat rest) f (omega (arith, n, m))) (rw more refl)))

-- Arguments that fit the format, hold no unsupported value and nest 32 tables deep at most are
-- packed, and their bytes are unpacked to the same values, the elements of an array part not
-- repeated among the entries.
pub luaseri_round_trip :
    (to_int : ℕ → ℕ) (vs : List Value)
    → AllFit vs
    → AllShallow vs
    → (ps : Pushes) × (pack_from vs ≡ some ps)
      × (luaseri_unpack to_int (concat ps) ≡ ok (map received vs) [])
unfolding luaseri_unpack
luaseri_round_trip to_int vs fits shallow =
    let (ps, e) = pack_from-Packed vs shallow in
    (ps, e, unpack_all-pack_from to_int vs ps (2 * length (concat ps) + 2) fits e (omega arith))
