-- ===== src/Emitter/Tests.antt =====
-- An emitter of batches of four reports, two in a packet, and the theorems at it.
use naoto_exchange.Common.{
  ℕ, ◌+◌, ◌<◌, ◌≤◌, List, [], ◌∷◌, true, ◌≡◌, ◌==◌, not, refl, arith, length, All,
}
use naoto_exchange.Wire.{u32, OrderStateReport}
use naoto_exchange.Queue.{try_pop, read, try_push, write, sub_u64}
use naoto_exchange.Queue.Fifo.{new_queue-IsFifo}
use naoto_exchange.Mempool.{acquire}
use naoto_exchange.Multicast.{receive, store_object}
use naoto_exchange.Multicast.Ring.{get_slot}
use naoto_exchange.Multicast.Order.{IsEmpty, Drained}
use naoto_exchange.Multicast.Gaps.{Waits}
use naoto_exchange.Multicast.Progress.{IsTaken}
use naoto_exchange.Multicast.Samples.{sizes, report, receiver, group}
use naoto_exchange.Emitter.{
  Emitter, Nic, objects_per_packet, max_packets, fill_headers, stamp, after, send_turn, send_loop,
  transmit, mtu, send_batch, send_one,
}
use naoto_exchange.Emitter.Bursts.{send_batch-IsSized}
use naoto_exchange.Emitter.Delivers.{payloads, Serves, payloads-send_batch}
use naoto_exchange.Emitter.Stalls.{send_batches, lost_packet_stalls}
use naoto_exchange.Emitter.Arrives.{numbered, send_one_arrives}

abbrev emitter : Emitter
emitter = record { sequence_id = 0; dst_ip = 5; dst_port = 6; object_size = 700; batch_size = 4 }

abbrev served : Nic
served = record { allocates = λ turn. true; appends = λ turn. true; takes = 8 }

-- The first packet is not allocated.
abbrev starved : Nic
starved = record { allocates = λ turn. not (turn == 0); appends = λ turn. true; takes = 8 }

abbrev three : List OrderStateReport
three = report 9 ∷ report 9 ∷ report 9 ∷ []

-- Two objects go into a packet.
packets_filled :
    payloads (send_batch emitter served three).burst ≡ report 0 ∷ report 1 ∷ report 2 ∷ []
unfolding send_batch send_loop send_turn transmit max_packets objects_per_packet stamp after
    fill_headers
packets_filled = refl

first_two_lost : payloads (send_batch emitter starved three).burst ≡ report 2 ∷ []
unfolding send_batch send_loop send_turn transmit max_packets objects_per_packet stamp after
    fill_headers
first_two_lost = refl

emitter_served : Serves emitter served
unfolding max_packets objects_per_packet
emitter_served = record { allocated = λ turn. refl; appended = λ turn. refl; taken = omega arith }

some_fit : 0 < objects_per_packet emitter
unfolding objects_per_packet
some_fit = omega arith

send_batch-IsSized_example :
    (length (send_batch emitter starved three).burst ≤ max_packets emitter)
    × All (λ p. p.length ≤ 14 + mtu) (send_batch emitter starved three).burst
send_batch-IsSized_example = send_batch-IsSized emitter starved three

payloads-send_batch_example :
    (payloads (send_batch emitter served three).burst ≡ stamp 0 three)
    × ((send_batch emitter served three).emitter.sequence_id ≡ u32 3)
    × ((send_batch emitter served three).freed ≡ 0)
payloads-send_batch_example =
    payloads-send_batch emitter served three emitter_served some_fit (omega arith) (omega arith)

lost_packet_stalls_example :
    Waits sizes receiver (
      receive sizes group (send_batches emitter ((starved, three) ∷ (served, three) ∷ [])) receiver)
unfolding get_slot
lost_packet_stalls_example =
    lost_packet_stalls sizes group receiver emitter starved (report 9) (report 9 ∷ report 9 ∷ [])
      ((served, three) ∷ []) refl refl (omega arith) some_fit (omega arith) (omega arith) refl

report_taken : IsTaken sizes (numbered emitter (report 9)) receiver
unfolding acquire try_pop read try_push write sub_u64
report_taken = record { object = 0; available = refl; recent = refl }

send_one_arrives_example :
    (xs : List ℕ) × Drained sizes
      (store_object sizes (numbered emitter (report 9)) receiver)
      []
      xs
      (receive sizes group (send_one emitter served (report 9)).burst receiver)
    × (0 < length xs)
    × IsEmpty sizes (receive sizes group (send_one emitter served (report 9)).burst receiver)
    × ((store_object sizes (numbered emitter (report 9)) receiver).next_to_read ≡ 0)
send_one_arrives_example =
    send_one_arrives sizes emitter served (report 9) receiver [] (omega arith) (omega arith)
      (omega arith) (new_queue-IsFifo 2 (λ i. 9)) refl report_taken refl refl (omega arith)
