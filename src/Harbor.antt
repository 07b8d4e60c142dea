-- ===== src/Harbor.antt =====
-- dn/service-src/service_harbor.c: the service that passes messages to the other nodes and takes
-- theirs, with global names. The sockets are parameters: the functions get what they do and a state
-- of the network, in which a write that is retried on EAGAIN or EINTR ends. A descriptor of -1 is
-- `none`. `none` as a result is a failed assert, or a NULL address that is read, or a package too
-- short for its header. The calls of `skynet_send` are collected, `skynet_error` only logs.
pub mod Contents
pub mod Remote
mod Tests
use dn_server.Common.{
  ℕ, zero, suc, ◌+◌, ◌-◌, ◌*◌, ◌/◌, ◌%◌, ◌^◌, Bool, true, false, List, [], ◌∷◌, ◌++◌, Option, none,
  some, ◌==◌, if◌then◌else◌, get_or, set, length, take, drop, replicate, ◌≡◌,
}
use dn_server.GlobalNames.{HashMap, hash_new, globalname_length}

abbrev pub hash_size : ℕ
hash_size = 4096

abbrev pub default_msg_queue_size : ℕ
default_msg_queue_size = 1024

abbrev pub remote_max : ℕ
remote_max = 256

-- `PTYPE_TAG_DONTCOPY`
abbrev pub tag_dontcopy : ℕ
tag_dontcopy = 0x10000

-- `struct remote_message_header`
pub record RemoteMessageHeader : Type 0 where
  pub source : ℕ
  pub destination : ℕ
  pub session : ℕ

-- `struct msg`: the last 12 bytes of `buffer` are kept as the header that they are.
pub record Msg : Type 0 where
  pub buffer : List ℕ
  pub header : RemoteMessageHeader

-- What a cell of a new array holds is read nowhere.
abbrev pub uninit : Msg
uninit = record { buffer = []; header = record { source = 0; destination = 0; session = 0 } }

-- `struct msg_queue`
pub record MsgQueue : Type 0 where
  pub size : ℕ
  pub head : ℕ
  pub tail : ℕ
  pub cells : List Msg

-- `_new_queue`
pub new_queue : MsgQueue
new_queue = record {
  size = default_msg_queue_size;
  head = 0;
  tail = 0;
  cells = replicate default_msg_queue_size uninit;
}

-- The loop of `_push_queue`: cells `i`, `i + 1`, … of the new array, for the rounds left.
pub move_cells : MsgQueue → ℕ → ℕ → List Msg
move_cells q zero i = []
move_cells q (suc rounds) i =
    get_or q.cells ((i + q.head) % q.size) uninit ∷ move_cells q rounds (i + 1)

-- The expansion in `_push_queue`.
pub expand : MsgQueue → MsgQueue
expand q = record {
  size = q.size * 2;
  head = 0;
  tail = q.size - 1;
  cells = move_cells q (q.size - 1) 0 ++ replicate (q.size + 1) uninit;
}

-- The slot at the tail is taken and filled.
pub put_tail : MsgQueue → Msg → MsgQueue
put_tail q m = record q { tail = (q.tail + 1) % q.size; cells = set q.cells q.tail m }

-- `_push_queue`
pub push_queue : MsgQueue → List ℕ → RemoteMessageHeader → MsgQueue
push_queue q buffer header =
    let m : Msg = record { buffer = buffer; header = header } in
    if (q.tail + 1) % q.size == q.head then put_tail (expand q) m else put_tail q m

-- `_pop_queue`
pub pop_queue : MsgQueue → Option Msg × MsgQueue
pop_queue q =
    if q.head == q.tail
    then (none, q)
    else (some (get_or q.cells q.head uninit), record q { head = (q.head + 1) % q.size })

-- What `struct keyvalue` holds for a name.
pub record Entry : Type 0 where
  pub value : ℕ
  pub queue : Option MsgQueue

-- The node that `_hash_insert` makes.
abbrev pub new_entry : Entry
new_entry = record { value = 0; queue = none }

-- A call of `skynet_send`
pub record LocalSend : Type 0 where
  pub source : ℕ
  pub destination : ℕ
  pub type : ℕ
  pub session : ℕ
  pub payload : List ℕ

-- What a call of `writev` answers: EAGAIN or EINTR, another error, or a number of bytes.
pub data Attempt : Type 0 where
  again : Attempt
  write_error : Attempt
  wrote : ℕ → Attempt

-- The loop around `writev`: whether all bytes were written. `none` is no fuel.
unfoldable pub write_loop :
    {World : Type 0}
    → (World → ℕ → List ℕ → Attempt × World)
    → ℕ
    → World
    → ℕ
    → List ℕ
    → Option (Bool × World)
write_loop attempt zero w fd bs = none
write_loop attempt (suc fuel) w fd bs =
    let (answer, w') = attempt w fd bs in
    elim answer [
      | again ↦ write_loop attempt fuel w' fd bs
      | write_error ↦ some (false, w')
      | wrote n ↦ some (n == length bs, w')
    ]

-- What the system does: `_connect_to`, `writev` and `close`. The code retries a write for ever; the
-- network is one in which the retries of each write end.
pub record Network (World : Type 0) : Type 0 where
  pub connect : World → List ℕ → Option ℕ × World
  pub attempt : World → ℕ → List ℕ → Attempt × World
  pub settles :
      (w : World) (fd : ℕ) (bs : List ℕ)
      → (r : Bool × World) × (fuel : ℕ) × (write_loop attempt fuel w fd bs ≡ some r)
  pub close : World → ℕ → World

-- How the loop around `writev` ends.
abbrev pub writev : {World : Type 0} → Network World → World → ℕ → List ℕ → Bool × World
writev net w fd bs = (net.settles w fd bs).0

-- `struct harbor`, with the network and the messages for services of this node.
pub record Harbor (World : Type 0) : Type 0 where
  pub id : ℕ
  pub names : HashMap Entry
  pub master_fd : Option ℕ
  pub master_addr : Option (List ℕ)
  pub remote_fd : ℕ → Option ℕ
  pub remote_addr : ℕ → Option (List ℕ)
  pub sends : List LocalSend
  pub world : World

-- `harbor_create`
abbrev pub harbor_create : {World : Type 0} → World → Harbor World
harbor_create w = record {
  id = 0;
  names = hash_new;
  master_fd = none;
  master_addr = none;
  remote_fd = λ i. none;
  remote_addr = λ i. none;
  sends = [];
  world = w;
}

-- `htonl` and `ntohl` of the bytes in memory
abbrev pub htonl : ℕ → List ℕ
htonl v = v / 2 ^ 24 % 2 ^ 8 ∷ v / 2 ^ 16 % 2 ^ 8 ∷ v / 2 ^ 8 % 2 ^ 8 ∷ v % 2 ^ 8 ∷ []

abbrev pub ntohl : List ℕ → ℕ
ntohl bs = get_or bs 0 0 * 2 ^ 24 + get_or bs 1 0 * 2 ^ 16 + get_or bs 2 0 * 2 ^ 8 + get_or bs 3 0

-- `_header_to_message` and `_message_to_header`
pub header_to_message : RemoteMessageHeader → List ℕ
header_to_message h = htonl h.source ++ htonl h.destination ++ htonl h.session

pub message_to_header : List ℕ → RemoteMessageHeader
message_to_header bs = record {
  source = ntohl bs;
  destination = ntohl (drop 4 bs);
  session = ntohl (drop 8 bs);
}

-- a write to one cell of an array
abbrev pub put_at {ℓ} : {A : Type ℓ} → (ℕ → A) → ℕ → A → ℕ → A
put_at f i v j = if j == i then v else f j

-- the name of a message or a struct: its first 16 bytes. Behind a shorter package the code reads
-- what is there; here its name is shorter.
abbrev pub name_of : List ℕ → List ℕ
name_of bs = take globalname_length bs

-- `handle & HANDLE_MASK`
abbrev pub low_bits : ℕ → ℕ
low_bits handle = handle % 2 ^ 24

-- The number of bytes before the first 0 of the 16 of a name, in `_remote_register_name`.
pub name_length : ℕ → List ℕ → ℕ
name_length zero name = 0
name_length (suc n) name =
    let rest = name_length n (drop 1 name) in if get_or name 0 0 == 0 then 0 else rest + 1
