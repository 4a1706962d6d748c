-- ===== src/Emitter/Arrives.antt =====
-- market_server/common/include/udp_multicast_emitter.hpp with udp_multicast_receiver.hpp: a report that
-- is sent alone, from its number to the queue behind the receiver.
use naoto_exchange.Common.{
  ℕ, zero, suc, ◌+◌, take, ◌^◌, ◌<◌, ◌≤◌, List, [], ◌∷◌, true, ◌≡◌, refl, sym, ◌∙◌, arith, length,
}
use naoto_exchange.Wire.{OrderStateReport}
use naoto_exchange.Queue.Fifo.{IsFifoAt}
use naoto_exchange.Multicast.{
  Sizes, Group, Receiver, Packet, accepted, check_packet, handle_verdict, receive_packet, receive,
  store_all, store_object, drain_all,
}
use naoto_exchange.Multicast.Order.{Drained, IsEmpty}
use naoto_exchange.Multicast.Progress.{IsTaken, store_object_passes_on}
use naoto_exchange.Emitter.{Emitter, Nic, fill_headers, stamp, send_turn, transmit, send_one}

-- The receiver's checks pass what the emitter builds for its group.
pub fill_headers_accepted :
    (e : Emitter) (items : List OrderStateReport)
    → check_packet (record { dst_ip = e.dst_ip; dst_port = e.dst_port }) (fill_headers e items)
      ≡ accepted
unfolding check_packet fill_headers
fill_headers_accepted e items = ground arith

-- The report as it is sent.
abbrev pub numbered : Emitter → OrderStateReport → OrderStateReport
numbered e x = record x { sequence_id = e.sequence_id }

take_one : (n : ℕ) (p : Packet) → 0 < n → take n (p ∷ []) ≡ p ∷ []
take_one zero p h = absurd (omega arith)
take_one (suc zero) p h = refl
take_one (suc (suc n)) p h = refl

send_one_sent :
    (e : Emitter) (nic : Nic) (x : OrderStateReport)
    → nic.allocates 0 ≡ true
    → nic.appends 0 ≡ true
    → 0 < nic.takes
    → (send_one e nic x).burst ≡ fill_headers e (numbered e x ∷ []) ∷ []
unfolding send_one send_turn transmit stamp
send_one_sent e nic x a b t = rw (a, b) (take_one nic.takes (fill_headers e (numbered e x ∷ [])) t)

received :
    (z : Sizes) (e : Emitter) (x : OrderStateReport) (r : Receiver)
    → let d = drain_all z (store_object z x r) in
      receive z
        (record { dst_ip = e.dst_ip; dst_port = e.dst_port })
        (fill_headers e (x ∷ []) ∷ [])
        r
      ≡ (record d { freed = d.freed + 1 })
unfolding receive receive_packet handle_verdict store_all fill_headers
received z e x r = rw (receive_packet, fill_headers_accepted e (x ∷ [])) refl

-- A report that DPDK lets the emitter send alone, to a receiver of its group that waits for its number, has
-- a free object for it and does not find it too old, is handed on at once, and with it all those that
-- waited behind it: the receiver tries to push a run of objects with consecutive sequence ids, the first
-- with the report's, and ends when the next one is not there. What a full queue refuses is lost.
pub send_one_arrives :
    (z : Sizes) (e : Emitter) (nic : Nic) (x : OrderStateReport) (r : Receiver) (ys : List ℕ)
    → z.ring ≤ 31
    → z.queue ≤ 63
    → r.next_to_read < 2 ^ 32
    → IsFifoAt z.queue r.outgoing ys
    → e.sequence_id ≡ r.next_to_read
    → IsTaken z (numbered e x) r
    → nic.allocates 0 ≡ true
    → nic.appends 0 ≡ true
    → 0 < nic.takes
    → let g : Group = record { dst_ip = e.dst_ip; dst_port = e.dst_port } in
      (xs : List ℕ) × Drained z
        (store_object z (numbered e x) r)
        ys
        xs
        (receive z g (send_one e nic x).burst r)
      × (0 < length xs)
      × IsEmpty z (receive z g (send_one e nic x).burst r)
      × ((store_object z (numbered e x) r).next_to_read ≡ e.sequence_id)
send_one_arrives z e nic x r ys small wide l f id taken a b t =
    let (xs, d, some_read, none_left, next) =
      store_object_passes_on z (numbered e x) r ys small wide l f id taken in
    let sent = send_one_sent e nic x a b t in
    let after_all = drain_all z (store_object z (numbered e x) r) in
    let drained : Drained z (store_object z (numbered e x) r) ys xs
        (record after_all { freed = after_all.freed + 1 }) =
      record {
        in_order = d.in_order;
        next = d.next;
        queue = d.queue;
        kept = d.kept;
        buffer = d.buffer;
      } in
    (
      xs,
      rw (sent, received z e (numbered e x) r) drained,
      some_read,
      rw (sent, received z e (numbered e x) r) none_left,
      next ∙ sym id,
    )
