-- ===== src/Multicast/Tests.antt =====
-- A receiver with a buffer of four slots, and the theorems at it.
use naoto_exchange.Common.{ℕ, ◌^◌, ◌<◌, List, [], ◌∷◌, ◌≡◌, refl, arith, update}
use naoto_exchange.Queue.{try_push, try_pop, read, write, sub_u64}
use naoto_exchange.Queue.Fifo.{IsFifoAt, new_queue-IsFifo}
use naoto_exchange.Mempool.{acquire, local_release}
use naoto_exchange.Multicast.Ring.{add_slot, get_slot}
use naoto_exchange.Multicast.{
  Receiver, Packet, check_packet, store_object, store_all, hand_on, drain, drain_all,
  handle_verdict, receive_packet, receive,
}
use naoto_exchange.Multicast.Order.{IsEmpty, Drained, drain_all_lem}
use naoto_exchange.Multicast.Gaps.{Waits, receive_waits}
use naoto_exchange.Multicast.Progress.{IsTaken}
use naoto_exchange.Multicast.Samples.{sizes, report, receiver, group, packet}

-- The second packet brings what the first lacks.
abbrev gap : List Packet
gap = packet (report 1 ∷ report 2 ∷ []) ∷ []

abbrev filled : List Packet
filled = packet (report 1 ∷ report 2 ∷ []) ∷ packet (report 0 ∷ []) ∷ []

gap_waits : (receive sizes group gap receiver).next_to_read ≡ 0
unfolding receive receive_packet check_packet handle_verdict store_all store_object drain_all drain
    hand_on acquire try_pop read try_push write sub_u64 local_release add_slot get_slot update
gap_waits = refl

filled_reads_on : (receive sizes group filled receiver).next_to_read ≡ 3
unfolding receive receive_packet check_packet handle_verdict store_all store_object drain_all drain
    hand_on acquire try_pop read try_push write sub_u64 local_release add_slot get_slot update
filled_reads_on = refl

receiver-IsEmpty : IsEmpty sizes receiver
unfolding get_slot
receiver-IsEmpty = refl

receive_waits_example : Waits sizes receiver (receive sizes group gap receiver)
receive_waits_example =
    receive_waits sizes group gap receiver receiver-IsEmpty
      (((λ e. omega (arith, e)), ((λ e. omega (arith, e)), tt)), tt)

-- Two reports are in the buffer.
abbrev ready : Receiver
unfolding store_all
ready = store_all sizes (report 0 ∷ report 1 ∷ []) receiver

ready_next : ready.next_to_read < 2 ^ 32
unfolding ready store_all store_object acquire try_pop read try_push write sub_u64 local_release
    add_slot update
ready_next = omega arith

ready-IsFifo : IsFifoAt 2 ready.outgoing []
unfolding ready store_all store_object acquire try_pop read try_push write sub_u64 local_release
    add_slot update
ready-IsFifo = new_queue-IsFifo 2 (λ i. 9)

drain_all_lem_example :
    (xs : List ℕ) × Drained sizes ready [] xs (drain_all sizes ready)
    × IsEmpty sizes (drain_all sizes ready)
drain_all_lem_example =
    drain_all_lem sizes ready [] (omega arith) (omega arith) ready_next ready-IsFifo

taken : IsTaken sizes (report 0) receiver
unfolding acquire try_pop read try_push write sub_u64
taken = record { object = 0; available = refl; recent = refl }
