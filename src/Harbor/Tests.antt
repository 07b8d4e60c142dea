-- ===== src/Harbor/Tests.antt =====
-- A harbor with one other node, on small networks, and each theorem on it.
use dn_server.Common.{
  inr, Bool, not, length, Bool-cases, eq→==, ℕ, zero, suc, ◌+◌, ◌^◌, ◌≡◌, refl, inl, false, List,
  [], ◌∷◌, ◌++◌, none, some, ◌==◌, if◌then◌else◌, map, arith, ◌>>=◌,
}
use dn_server.GlobalNames.{hash_search, hash_new}
use dn_server.GlobalNames.Find.{hash_search-new}
use dn_server.Harbor.{
  hash_size, message_to_header, uninit, MsgQueue, Entry, Attempt, wrote, write_error, write_loop,
  Network, Harbor,
}
use dn_server.Harbor.Contents
use dn_server.Harbor.Contents.{contents, contents-push_queue}
use dn_server.Harbor.Remote.{
  Request, register_name, message_out, package_in, update_remote_name, remote_send_handle,
  remote_message_in, dispatch_queue,
}
use dn_server.Harbor.Remote.Package.{Outgoing, packet, frame, received, remote_send_handle-Arrives}
use dn_server.Harbor.Remote.Package
use dn_server.Harbor.Remote.Dispatch.{Works}
use dn_server.Harbor.Remote.Master.{Waits, new_name-Waits}
use dn_server.Harbor.Remote.Order.{send_all, known, remote_send_name-in_order}
use dn_server.Harbor.Remote.Broken.{Breaks, Loses, dispatch_queue-Loses}
use dn_server.Harbor.Remote.Addresses
use dn_server.Harbor.Remote.Addresses.{Ends}
use dn_server.Harbor.Remote.Run.{AllRequests, run_all, run_all-Ends}

-- What was written to descriptor 7.
abbrev Log : Type 0
Log = List (List ℕ)

-- The descriptors that pass the test take all bytes, the others none.
abbrev accepts : (ℕ → Bool) → Log → ℕ → List ℕ → Attempt × Log
accepts test w fd bytes =
    (if test fd then wrote (length bytes) else write_error, if test fd then w ++ bytes ∷ [] else w)

accepts-settles :
    (test : ℕ → Bool) (w : Log) (fd : ℕ) (bytes : List ℕ)
    → write_loop (accepts test) (suc zero) w fd bytes
      ≡ some (test fd, if test fd then w ++ bytes ∷ [] else w)
unfolding write_loop
accepts-settles test w fd bytes = elim (Bool-cases (test fd)) [
  | inl takes ↦ rw (takes, write_loop, eq→== (length bytes) (length bytes) refl) (rw takes refl)
  | inr not_taken ↦ rw (not_taken, write_loop) (rw not_taken refl)
]

abbrev working : Network Log
working = record {
  connect = λ w addr. (some 9, w);
  attempt = accepts (λ fd. fd == 7);
  settles = λ w fd bytes. (
    (fd == 7, if fd == 7 then w ++ bytes ∷ [] else w),
    suc zero,
    accepts-settles (λ d. d == 7) w fd bytes,
  );
  close = λ w fd. w;
}

-- Descriptor 7 is broken.
abbrev broken : Network Log
broken = record {
  connect = λ w addr. (some 9, w);
  attempt = accepts (λ fd. not (fd == 7));
  settles = λ w fd bytes. (
    (not (fd == 7), if not (fd == 7) then w ++ bytes ∷ [] else w),
    suc zero,
    accepts-settles (λ d. not (d == 7)) w fd bytes,
  );
  close = λ w fd. w;
}

-- Harbor 1, connected to harbor 2.
abbrev one : Harbor Log
one = record {
  id = 1;
  names = hash_new;
  master_fd = some 3;
  master_addr = some (48 ∷ []);
  remote_fd = λ i. if i == 2 then some 7 else none;
  remote_addr = λ i. if i == 2 then some (50 ∷ []) else none;
  sends = [];
  world = [];
}

abbrev two : Harbor Log
two = record one { id = 2 }

abbrev hello : Outgoing
hello = record { source = 2 ^ 24 + 5; type = 1; session = 8; message = 104 ∷ 105 ∷ [] }

abbrev chat : List ℕ
chat = 99 ∷ 104 ∷ 97 ∷ 116 ∷ []

working-Works : Works working (λ w. w) 7
working-Works = record {
  written = λ w bytes. refl;
  arrives = λ w bytes. refl;
  other_fd = λ w d bytes ne. ground arith;
  connects = λ w addr. refl;
  fresh = λ w addr e. ground arith;
  closes = λ w d ne. refl;
}

chat-Waits : Waits one chat []
chat-Waits = new_name-Waits one chat (hash_search-new hash_size chat)

remote_send_name-in_order_example :
    (h' : Harbor Log) × (send_all working chat (hello ∷ hello ∷ []) one
        >>= (λ h. update_remote_name working h chat (2 ^ 25 + 6))
      ≡ some h')
    × (h'.world ≡ [] ++ map (λ m. frame (packet m (2 ^ 25 + 6))) (hello ∷ hello ∷ []))
    × (hash_search hash_size h'.names chat ≡ some (known (2 ^ 25 + 6)))
remote_send_name-in_order_example =
    remote_send_name-in_order working (λ w. w) 7 working-Works chat (hello ∷ hello ∷ []) one
      (2 ^ 25 + 6) chat-Waits (λ e. ground arith) (λ e. ground arith) (λ e. omega (arith, e)) refl

hello-IsValid : Package.IsValid hello
hello-IsValid = record {
  from_service = λ e. omega (arith, e);
  small_source = omega arith;
  small_type = omega arith;
  small_session = omega arith;
}

remote_send_handle-Arrives_example :
    (remote_send_handle working one (2 ^ 24 + 5) (2 ^ 25 + 6) 1 8 (104 ∷ 105 ∷ [])
      ≡ some (false, record one { world = frame (packet hello (2 ^ 25 + 6)) ∷ [] }))
    × (remote_message_in working two (packet hello (2 ^ 25 + 6))
        ≡ some (1, record two { sends = received hello (2 ^ 25 + 6) ∷ [] }))
remote_send_handle-Arrives_example =
    remote_send_handle-Arrives working one two hello (2 ^ 25 + 6) 7 hello-IsValid (omega arith)
      (λ e. omega (arith, e)) (λ e. omega (arith, e)) refl refl refl

one-IsValid : Addresses.IsValid one
one-IsValid = record {
  master = λ e. ground arith;
  addressed = λ i fd e. ground arith;
  named = λ name e found. let new = hash_search-new {A = Entry} hash_size name in absurd cc;
}

-- The address of harbor 3.
abbrev address : List ℕ
address = 51 ∷ 0 ∷ 0 ∷ 0 ∷ 0 ∷ 0 ∷ 0 ∷ 0 ∷ 3 ∷ 0 ∷ 0 ∷ 0 ∷ 0 ∷ []

-- The name is registered, a message is sent to it, and harbor 3 becomes known.
abbrev requests : List Request
requests =
    register_name 20 chat (2 ^ 25 + 6)
    ∷ message_out 1 8 (2 ^ 24 + 5) chat 0 (104 ∷ [])
    ∷ package_in address
    ∷ []

requests-AllRequests : AllRequests requests
requests-AllRequests = (
  (refl, inr (λ e. omega (arith, e))),
  (inl refl, ((omega arith, λ e. inl (unfold message_to_header in omega arith)), tt)),
)

run_all-Ends_example : Ends (run_all working requests one)
run_all-Ends_example = run_all-Ends working requests one one-IsValid requests-AllRequests

-- One message waits in two cells; the next push grows the array.
abbrev waiting : MsgQueue
waiting = record { size = 2; head = 1; tail = 0; cells = uninit ∷ uninit ∷ [] }

waiting-IsValid : Contents.IsValid waiting
waiting-IsValid = omega arith

broken-Breaks : Breaks broken (λ w. w) 7 (50 ∷ [])
broken-Breaks = record {
  fails = λ w bytes. refl;
  silent = λ w bytes. refl;
  closes = λ w. refl;
  connects = λ w. refl;
  answers = λ w. (9, refl);
}

dispatch_queue-Loses_example :
    (h' : Harbor Log) × (dispatch_queue broken one waiting (2 ^ 25 + 6) ≡ some h')
    × Loses (λ w. w) 2 one h'
dispatch_queue-Loses_example =
    dispatch_queue-Loses broken (λ w. w) 7 (50 ∷ []) broken-Breaks (2 ^ 25 + 6) one waiting
      waiting-IsValid (λ e. omega (arith, e)) refl refl
