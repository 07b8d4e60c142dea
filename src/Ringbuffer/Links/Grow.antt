-- ===== src/Ringbuffer/Links/Grow.antt =====
-- A block behind the last one of a message of dn/gate/ringbuffer.c.
use dn_server.Common.{
  ℕ, zero, suc, ◌≤◌, ◌<◌, ◌≡◌, ◌≢◌, refl, sym, ap, ◌∙◌, List, [], ◌∷◌, ◌++◌, none, some, length,
  append_assoc, arith,
}
use dn_server.Ringbuffer.{Block, Ringbuffer, header_size, set_block}
use dn_server.Ringbuffer.Links.{last_block}
use dn_server.Ringbuffer.Links.Contents.{Linked, payload, contents}
use dn_server.Ringbuffer.Links.Behind.{NotIn, Distinct}

abbrev pub last_of : ℕ → List ℕ → ℕ
last_of o [] = o
last_of o (p ∷ ps) = last_of p ps

-- Blocks that a connection holds.
abbrev pub AllHeld : (ℕ → Block) → ℕ → List ℕ → Type 0
AllHeld m id [] = Unit
AllHeld m id (p ∷ ps) = (header_size ≤ (m p).length) × ((m p).id ≡ some id) × AllHeld m id ps

pub last_block-last_of :
    (fuel : ℕ) (rb : Ringbuffer) (o : ℕ) (ps : List ℕ)
    → Linked rb.blocks o ps
    → length ps < fuel
    → last_block fuel rb o ≡ some (last_of o ps)
unfolding last_block
last_block-last_of zero rb o ps linked h = absurd (omega arith)
last_block-last_of (suc fuel) rb o [] next h = rw (last_block, next) refl
last_block-last_of (suc fuel) rb o (p ∷ ps) (next, _, linked) h =
    rw (last_block, next) (last_block-last_of fuel rb p ps linked (omega arith))

-- The blocks `m` with `next` linked behind the block `last`.
pub record Links (m m' : ℕ → Block) (last next : ℕ) : Type 0 where
  pub others : (i : ℕ) → i ≢ last → i ≢ next → m' i ≡ m i
  pub lengths : (i : ℕ) → (m' i).length ≡ (m i).length
  pub offsets : (i : ℕ) → (m' i).offset ≡ (m i).offset
  pub ids : (i : ℕ) → i ≢ next → (m' i).id ≡ (m i).id
  pub new_id : (m' next).id ≡ (m last).id
  pub link : (m' last).next ≡ some next
  pub ends : (m' next).next ≡ (m next).next

abbrev with_id : Ringbuffer → ℕ → ℕ → Ringbuffer
with_id rb last next = set_block rb next (record (rb.blocks next) { id = (rb.blocks last).id })

abbrev pub linked_to : Ringbuffer → ℕ → ℕ → Ringbuffer
linked_to rb last next =
    let rb₁ = with_id rb last next in
    set_block rb₁ last (record (rb₁.blocks last) { next = some next })

pub linked_to-Links :
    (rb : Ringbuffer) (last next : ℕ)
    → last ≢ next
    → Links rb.blocks (linked_to rb last next).blocks last next
linked_to-Links rb last next ne = record {
  others = λ i a b. ground arith;
  lengths = λ i. ground arith;
  offsets = λ i. ground arith;
  ids = λ i a. ground arith;
  new_id = ground arith;
  link = ground arith;
  ends = ground arith;
}

pub last_of-NotIn : (i o : ℕ) (ps : List ℕ) → NotIn i (o ∷ ps) → i ≢ last_of o ps
last_of-NotIn i o [] (ne, _) = ne
last_of-NotIn i o (p ∷ ps) (_, rest) = last_of-NotIn i p ps rest

pub Linked-link :
    (m m' : ℕ → Block) (o next : ℕ) (ps : List ℕ)
    → Links m m' (last_of o ps) next
    → Linked m o ps
    → Distinct (o ∷ ps)
    → NotIn next (o ∷ ps)
    → ((m next).next ≡ none)
    → ((m next).offset ≡ 0)
    → Linked m' o (ps ++ next ∷ [])
Linked-link m m' o next [] links _ _ _ ends fresh =
    (links.link, links.offsets next ∙ fresh, links.ends ∙ ends)
Linked-link m m' o next (p ∷ ps) links (to, at_start, linked) (alone, distinct) (ne, out) ends
      fresh =
    (
      ap (λ b. b.next) (links.others o (last_of-NotIn o p ps alone) (λ e. ne (sym e))) ∙ to,
      links.offsets p ∙ at_start,
      Linked-link m m' p next ps links linked distinct out ends fresh,
    )

payload-link :
    (rb rb' : Ringbuffer) (last next i : ℕ)
    → Links rb.blocks rb'.blocks last next
    → rb'.bytes ≡ rb.bytes
    → payload rb' i ≡ payload rb i
payload-link rb rb' last next i links bytes = rw (links.lengths i, links.offsets i, bytes) refl

pub contents-link :
    (rb rb' : Ringbuffer) (last next o : ℕ) (ps : List ℕ)
    → Links rb.blocks rb'.blocks last next
    → rb'.bytes ≡ rb.bytes
    → contents rb' o (ps ++ next ∷ []) ≡ contents rb o ps ++ payload rb next
contents-link rb rb' last next o [] links bytes =
    cc (payload-link rb rb' last next o links bytes, payload-link rb rb' last next next links bytes)
contents-link rb rb' last next o (p ∷ ps) links bytes = cc (
  payload-link rb rb' last next o links bytes,
  contents-link rb rb' last next p ps links bytes,
  append_assoc (payload rb o) (contents rb p ps) (payload rb next),
)

pub last_of-AllHeld :
    (m : ℕ → Block) (id o : ℕ) (ps : List ℕ)
    → AllHeld m id (o ∷ ps)
    → (m (last_of o ps)).id ≡ some id
last_of-AllHeld m id o [] (_, e, _) = e
last_of-AllHeld m id o (p ∷ ps) (_, _, rest) = last_of-AllHeld m id p ps rest

pub AllHeld-link :
    (m m' : ℕ → Block) (id last next : ℕ) (ps : List ℕ)
    → Links m m' last next
    → NotIn next ps
    → AllHeld m id ps
    → header_size ≤ (m next).length
    → (m last).id ≡ some id
    → AllHeld m' id (ps ++ next ∷ [])
AllHeld-link m m' id last next [] links _ _ long e =
    (omega (arith, links.lengths next), links.new_id ∙ e, tt)
AllHeld-link m m' id last next (p ∷ ps) links (ne, out) (l, held, rest) long e = (
  omega (arith, links.lengths p),
  links.ids p (λ q. ne (sym q)) ∙ held,
  AllHeld-link m m' id last next ps links out rest long e,
)

NotIn-append : (i next : ℕ) (ps : List ℕ) → NotIn i ps → i ≢ next → NotIn i (ps ++ next ∷ [])
NotIn-append i next [] h ne = (ne, tt)
NotIn-append i next (p ∷ ps) (a, h) ne = (a, NotIn-append i next ps h ne)

pub Distinct-append :
    (next : ℕ) (ps : List ℕ) → Distinct ps → NotIn next ps → Distinct (ps ++ next ∷ [])
Distinct-append next [] d h = (tt, tt)
Distinct-append next (p ∷ ps) (alone, d) (ne, h) =
    (NotIn-append p next ps alone (λ e. ne (sym e)), Distinct-append next ps d h)
