-- ===== src/Harbor/Remote/Package.antt =====
-- The packages that two nodes exchange: what one sends is what the other takes.
use dn_server.Common.{
  ℕ, ◌+◌, ◌-◌, ◌*◌, ◌/◌, ◌%◌, ◌^◌, ◌<◌, ◌≡◌, ◌≢◌, refl, sym, ap, ◌∙◌, true, false, List, [], ◌∷◌,
  ◌++◌, some, arith, leb, length, ne→==, length-append, take-append, drop-append,
}
use dn_server.Harbor.{
  RemoteMessageHeader, LocalSend, Network, writev, Harbor, htonl, ntohl, header_to_message,
  message_to_header, low_bits,
}
use dn_server.Harbor.Remote.{with_dontcopy, remote_message_in, remote_send_handle, write_remote}

-- A message of a service, before it is packed.
pub record Outgoing : Type 0 where
  pub source : ℕ
  pub type : ℕ
  pub session : ℕ
  pub message : List ℕ

-- The fields are words of their widths, and the sender is a service.
pub record IsValid (m : Outgoing) : Type 0 where
  pub from_service : m.source ≢ 0
  pub small_source : m.source < 2 ^ 32
  pub small_type : m.type < 2 ^ 8
  pub small_session : m.session < 2 ^ 32

abbrev pub cookie : Outgoing → ℕ → RemoteMessageHeader
cookie m handle = record {
  source = m.source;
  destination = low_bits handle + m.type * 2 ^ 24 % 2 ^ 32;
  session = m.session;
}

-- The bytes of a message to a handle, without the length in front.
abbrev pub packet : Outgoing → ℕ → List ℕ
packet m handle = m.message ++ header_to_message (cookie m handle)

ntohl-htonl : (v : ℕ) (rest : List ℕ) → v < 2 ^ 32 → ntohl (htonl v ++ rest) ≡ v
ntohl-htonl v rest h = omega arith

-- The header is read back from its 12 bytes.
message_to_header-header_to_message :
    (h : RemoteMessageHeader)
    → h.source < 2 ^ 32
    → h.destination < 2 ^ 32
    → h.session < 2 ^ 32
    → message_to_header (header_to_message h) ≡ h
unfolding message_to_header header_to_message
message_to_header-header_to_message h a b c = cc (
  ntohl-htonl h.source (htonl h.destination ++ htonl h.session) a,
  ntohl-htonl h.destination (htonl h.session) b,
  ntohl-htonl h.session [] c,
)

length-header_to_message : (h : RemoteMessageHeader) → length (header_to_message h) ≡ 12
unfolding header_to_message
length-header_to_message h = refl

-- What the other node sends on.
abbrev pub received : Outgoing → ℕ → LocalSend
received m handle = record {
  source = m.source;
  destination = handle;
  type = with_dontcopy m.type;
  session = m.session;
  payload = m.message;
}

-- A package from a service is sent on in the node whose harbor is that of the handle: to the
-- handle, with the source, the type, the session and the data of the message.
remote_message_in-packet :
    {World : Type 0} (net : Network World) (h : Harbor World) (m : Outgoing) (handle : ℕ)
    → IsValid m
    → handle < 2 ^ 32
    → handle / 2 ^ 24 ≡ h.id
    → remote_message_in net h (packet m handle)
      ≡ some (1, record h { sends = h.sends ++ received m handle ∷ [] })
unfolding remote_message_in
remote_message_in-packet net h m handle v small home =
    let bytes = header_to_message (cookie m handle) in
    let n : length (m.message ++ bytes) ≡ length m.message + 12 =
      length-append m.message bytes ∙ ap (λ k. length m.message + k) (length-header_to_message _) in
    let long : leb 12 (length m.message + 12) ≡ true = ground arith in
    let sz : length m.message + 12 - 12 ≡ length m.message = omega arith in
    let read =
      message_to_header-header_to_message (cookie m handle) v.small_source
        (omega (arith, v.small_type)) v.small_session in
    let at : low_bits (cookie m handle).destination + h.id * 2 ^ 24 % 2 ^ 32 ≡ handle =
      rw (sym home) (omega (arith, v.small_type)) in
    let type : (cookie m handle).destination / 2 ^ 24 ≡ m.type = omega (arith, v.small_type) in
    rw
      (
        n,
        sz,
        long,
        take-append (length m.message) m.message bytes refl,
        drop-append (length m.message) m.message bytes refl,
        read,
        ne→== m.source 0 v.from_service,
        at,
        type,
      )
      refl

-- The bytes on the socket: the length in front, as the gate of the other node takes it off.
abbrev pub frame : List ℕ → List ℕ
frame bytes = htonl (length bytes) ++ bytes

length-packet : (m : Outgoing) (handle : ℕ) → length (packet m handle) ≡ length m.message + 12
length-packet m handle =
    length-append m.message (header_to_message (cookie m handle))
    ∙ ap (λ k. length m.message + k) (length-header_to_message _)

-- A message of a service (its source is not 0), with a type below 256 and a source and a session
-- of 32 bits, to a handle of another node that is connected, where the write succeeds: one package
-- is written, and the other node sends exactly that message on to the handle.
pub remote_send_handle-Arrives :
    {World : Type 0} (net : Network World) (h peer : Harbor World) (m : Outgoing) (handle fd : ℕ)
    → IsValid m
    → handle < 2 ^ 32
    → handle / 2 ^ 24 ≢ 0
    → handle / 2 ^ 24 ≢ h.id
    → h.remote_fd (handle / 2 ^ 24) ≡ some fd
    → (writev net h.world fd (frame (packet m handle))).0 ≡ true
    → handle / 2 ^ 24 ≡ peer.id
    → (remote_send_handle net h m.source handle m.type m.session m.message
        ≡ some (false, record h { world = (writev net h.world fd (frame (packet m handle))).1 }))
      × (remote_message_in net peer (packet m handle)
          ≡ some (1, record peer { sends = peer.sends ++ received m handle ∷ [] }))
unfolding remote_send_handle write_remote
remote_send_handle-Arrives net h peer m handle fd v small far other at written home =
    let ok = (rw (length-packet m handle) at written) in
    (
      rw
          (
            ne→== (handle / 2 ^ 24) 0 far,
            ne→== (handle / 2 ^ 24) h.id other,
            at,
            length-packet m handle,
            ok,
          )
          refl,
      remote_message_in-packet net peer m handle v small home,
    )
