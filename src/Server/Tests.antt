-- ===== src/Server/Tests.antt =====
-- A node with four contexts and one harbor service, and each theorem at an input.
use dn_server.Common.{true, zero, suc, ℕ, ◌≡◌, refl, arith}
use dn_server.Handle.Tests.{heap, full, without_new}
use dn_server.Mq.{Message}
use dn_server.Mq.Tests.{wrapped, wrapped-IsValid, empty_ring, empty_ring-IsValid}
use dn_server.Server.{Node, context_push, send, send_remote}
use dn_server.Server.Launch.{new_context, context_new}
use dn_server.Handle.{write}
use dn_server.Handle.Slots
use dn_server.Server.Launch.Runs.{Launches, context_new-Launches}
use dn_server.Server.Delivery.{IsLive, Delivers, context_push-Delivers}
use dn_server.Server.Routing.{SendsHere, send-SendsHere}
use dn_server.Server.Remote.{Forwards, send_remote-Forwards}

abbrev pub node : Node
node = record {
  harbor = 0;
  remote = 101;
  handles = full;
  heap = heap;
  queues = λ _. wrapped;
  global = empty_ring;
  rmsgs = λ _. record { destination = 0; message = 0; sz = 0 };
}

held : (c : ℕ) → (heap c).ref ≡ 2
held c = ground arith

pub node-IsLive : IsLive node
node-IsLive = record {
  refs = λ handle ctx e. omega (arith, held ctx);
  queues = λ ctx. wrapped-IsValid;
}

abbrev hello : Message
hello = record { source = 1; session = 0; payload = 0x5000; sz = 5 }

context_push-Delivers_example : Delivers node 2 hello (context_push node 2 hello)
context_push-Delivers_example = context_push-Delivers node 2 hello node-IsLive

send-SendsHere_example :
    SendsHere node 101 0x6000 0 2 0x20000 0 0x5000 5
      (send node 101 0x6000 0x7000 0 2 0x20000 0 0x5000 5)
send-SendsHere_example =
    send-SendsHere node 101 0x6000 0x7000 0 2 0x20000 0 0x5000 5 node-IsLive (omega arith)
      (omega arith) refl

send_remote-Forwards_example :
    Forwards node 0x7000 0x1000002 hello (send_remote node 0x7000 0x1000002 hello)
send_remote-Forwards_example = send_remote-Forwards node 0x7000 0x1000002 hello wrapped-IsValid

fresh_heap-IsHashed : Slots.IsHashed (write heap 105 new_context) 4 full.slot
fresh_heap-IsHashed zero c e = ground arith
fresh_heap-IsHashed (suc zero) c e = ground arith
fresh_heap-IsHashed (suc (suc zero)) c e = ground arith
fresh_heap-IsHashed (suc (suc (suc zero))) c e = ground arith
fresh_heap-IsHashed (suc (suc (suc (suc i)))) c e = ground arith

fresh_heap-IsValid : Slots.IsValid (write heap 105 new_context) full
fresh_heap-IsValid = record {
  exponent = 2;
  power = refl;
  small = omega arith;
  cells = refl;
  hashed = fresh_heap-IsHashed;
  harbor_high = refl;
}

context_new-Launches_example :
    Launches node 105 0x8000 (context_new (λ w. (w, true)) node 105 0x8000)
context_new-Launches_example =
    context_new-Launches (λ w. (w, true)) node 105 0x8000 (λ w. refl) fresh_heap-IsValid without_new
      empty_ring-IsValid (omega arith)
