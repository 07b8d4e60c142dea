-- ===== src/Server/Tags.antt =====
-- The type that a message carries in the high byte of its size, and the harbor in that of a handle.
use dn_server.Common.{
  ℕ, ◌+◌, ◌%◌, ◌^◌, ◌<◌, ◌≤◌, ◌≡◌, ◌≢◌, refl, subst, ◌⊎◌, inl, inr, Bool, true, false, Option, none,
  some, ◌==◌, if◌then◌else◌, ltb, ◌&&◌, ◌||◌, not, arith, Bool-cases,
}
use dn_server.Context.{Context, context_newsession, Heap}
use dn_server.Handle.{HandleStorage, register, registered, slot_at}
use dn_server.Handle.Slots
use dn_server.Handle.Register.{Registers, register-Registers}
use dn_server.Server.{
  shifted_type, unpack, harbor_init, message_isremote, Args, is_dontcopy, is_allocsession,
  filter_args,
}

-- What `_filter_args` does: it fails on a session given together with the tag that allocates one,
-- or on a size of 24 bits or more. Otherwise the dispatch reads the type and the size from the
-- packed size, the session is new or stays, and the data is a copy unless the tag or a null says no.
abbrev pub Filters : Context → ℕ → ℕ → ℕ → ℕ → ℕ → Option Args → Type 0
Filters c copy type session payload sz none =
    (is_allocsession type ≡ true) × (session ≢ 0) ⊎ 2 ^ 24 ≤ sz
Filters c copy type session payload sz (some a) =
    (unpack a.sz ≡ (type % 2 ^ 8, sz))
    × ((is_allocsession type ≡ true)
          × (session ≡ 0)
          × ((a.context, a.session) ≡ context_newsession c)
        ⊎ (is_allocsession type ≡ false) × (a.context ≡ c) × (a.session ≡ session))
    × ((is_dontcopy type ≡ false) × (payload ≢ 0) × (a.payload ≡ copy)
        ⊎ (is_dontcopy type ≡ true ⊎ payload ≡ 0) × (a.payload ≡ payload))

unpack-shifted_type :
    (type sz : ℕ) → type < 128 → sz < 2 ^ 24 → unpack (sz + shifted_type type) ≡ (type, sz)
unpack-shifted_type type sz t s = ground arith

session_choice :
    (alloc : Bool) (c : Context) (session : ℕ)
    → (not alloc || session == 0) ≡ true
    → (let r = if alloc then context_newsession c else (c, session) in
        (alloc ≡ true) × (session ≡ 0) × ((r.0, r.1) ≡ context_newsession c)
        ⊎ (alloc ≡ false) × (r.0 ≡ c) × (r.1 ≡ session))
session_choice true c session h = inl (refl, ground arith, refl)
session_choice false c session h = inr (refl, refl, refl)

payload_choice :
    (dontcopy : Bool) (copy payload : ℕ)
    → (let r = if not dontcopy && not (payload == 0) then copy else payload in
        (dontcopy ≡ false) × (payload ≢ 0) × (r ≡ copy)
        ⊎ (dontcopy ≡ true ⊎ payload ≡ 0) × (r ≡ payload))
payload_choice true copy payload = inr (inl refl, refl)
payload_choice false copy payload = elim (Bool-cases (payload == 0)) [
  | inl null ↦ rw null (inr (inr (ground arith), refl))
  | inr given ↦ rw given (inl (refl, ground arith, refl))
]

refused_session :
    (alloc : Bool) (session : ℕ)
    → (not alloc || session == 0) ≡ false
    → (alloc ≡ true) × (session ≢ 0)
refused_session true session h = (refl, ground arith)
refused_session false session h = ground arith

-- `_filter_args` of a type below 128 packs what the dispatch unpacks, and fails, allocates and
-- copies exactly as its tags say.
pub filter_args-Filters :
    (c : Context) (copy type session payload sz : ℕ)
    → type % 2 ^ 8 < 128
    → Filters c copy type session payload sz (filter_args c copy type session payload sz)
unfolding filter_args
filter_args-Filters c copy type session payload sz t =
    elim (Bool-cases (not (is_allocsession type) || session == 0)) [
      | inr given ↦ rw given (inl (refused_session (is_allocsession type) session given))
      | inl good ↦ rw good (elim (Bool-cases (ltb sz (2 ^ 24))) [
        | inr big ↦ rw big (inr (ground arith))
        | inl small ↦ rw small (
          unpack-shifted_type (type % 2 ^ 8) sz t (ground arith),
          session_choice (is_allocsession type) c session good,
          payload_choice (is_dontcopy type) copy payload,
        )
      ])
    ]

-- The handle of a context that a valid storage registers, where it keeps the harbor that
-- `skynet_harbor_init` keeps and the context stands in no slot, is not remote.
register-local :
    (heap : Heap) (s : HandleStorage) (ctx harbor h : ℕ) (s' : HandleStorage) (heap' : Heap)
    → s.harbor ≡ harbor_init harbor
    → Slots.IsValid heap s
    → ((i : ℕ) → slot_at s.slot i ≢ some ctx)
    → register heap s ctx ≡ registered (h, s', heap')
    → message_isremote (harbor_init harbor) h ≡ false
register-local heap s ctx harbor h s' heap' e v new r =
    let (_, _, _, _, _, low, _) : Registers heap s ctx (registered (h, s', heap')) =
      subst (Registers heap s ctx) r (register-Registers heap s ctx v new) in
    ground (arith, low, e)
