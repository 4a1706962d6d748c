-- ===== src/Multicast.antt =====
-- market_server/common/include/udp_multicast_receiver.hpp: the thread that receives the engines'
-- reports and passes them on in the order of their sequence ids.
pub mod Ring
pub mod Order
pub mod Gaps
pub mod Progress
pub mod Samples
mod Tests
use naoto_exchange.Common.{
  ℕ, zero, suc, ◌+◌, ◌%◌, ◌^◌, List, [], ◌∷◌, Bool, true, false, Option, none, some, ◌==◌, ◌&&◌,
  ◌||◌, not, ltb, if◌then◌else◌, update,
}
use naoto_exchange.Wire.{OrderStateReport, u32}
use naoto_exchange.Queue.{SpscQueue, try_push}
use naoto_exchange.Mempool.{StoragePool, acquire, local_release}
use naoto_exchange.Multicast.Ring.{RingBuffer, get_slot, add_slot}

-- The exponents of the sizes: of the ring buffer, of the queue and of the pool.
pub record Sizes : Type 0 where
  pub ring : ℕ
  pub queue : ℕ
  pub pool : ℕ

-- The members that `Receive` uses, with the objects of the pool's storage and the number of packets
-- that it has freed.
pub record Receiver : Type 0 where
  pub outgoing : SpscQueue ℕ
  pub pool : StoragePool
  pub objects : ℕ → OrderStateReport
  pub receive_buffer : RingBuffer
  pub next_to_read : ℕ
  pub freed : ℕ

-- A received packet: what the checks read of it, in host byte order, and its payload, which is the
-- object that each turn of the loop over it copies.
pub record Packet : Type 0 where
  pub segments : ℕ
  pub ip_checksum_bad : Bool
  pub l4_checksum_bad : Bool
  pub length : ℕ
  pub ether_type : ℕ
  pub next_proto_id : ℕ
  pub dst_addr : ℕ
  pub dst_port : ℕ
  pub payload : List OrderStateReport

-- `DstIp` and `DstPort`
pub record Group : Type 0 where
  pub dst_ip : ℕ
  pub dst_port : ℕ

pub data Verdict : Type 0 where
  accepted : Verdict
  -- dropped, and freed or not
  dropped : Bool → Verdict

-- Ethernet, IPv4 and UDP.
abbrev pub header_size : ℕ
header_size = 14 + 20 + 8

abbrev pub ether_type_ipv4 : ℕ
ether_type_ipv4 = 2048

abbrev pub ipproto_udp : ℕ
ipproto_udp = 17

-- The checks of `Receive` on a packet.
unfoldable pub check_packet : Group → Packet → Verdict
check_packet g pkt =
    if ltb 1 pkt.segments || pkt.ip_checksum_bad || pkt.l4_checksum_bad
    then dropped true
    else if ltb pkt.length header_size
    then dropped true
    else if not (pkt.ether_type == ether_type_ipv4)
    then dropped true
    else if not (pkt.next_proto_id == ipproto_udp)
    then dropped true
    else if not (pkt.dst_addr == g.dst_ip)
    then dropped true
    else if not (pkt.dst_port == g.dst_port)
    then dropped false
    else accepted

abbrev add_or_release : Sizes → ℕ → Receiver → Bool × RingBuffer → Receiver
add_or_release z a r (true, ring) = record r { receive_buffer = ring }
add_or_release z a r (false, ring) = record r { pool = (local_release z.pool a r.pool).1 }

abbrev pub store_at : Sizes → OrderStateReport → ℕ → Receiver → Receiver
store_at z x a r =
    let objects = update a x r.objects in
    add_or_release z a (record r { objects = objects }) (add_slot z.ring objects a r.receive_buffer)

abbrev pub store_from : Sizes → OrderStateReport → Receiver → Option ℕ × StoragePool → Receiver
store_from z x r (none, pool) = record r { pool = pool }
store_from z x r (some a, pool) = store_at z x a (record r { pool = pool })

-- One turn of the loop over the payload: without a free object, the object is lost.
unfoldable pub store_object : Sizes → OrderStateReport → Receiver → Receiver
unfolding acquire local_release add_slot update
store_object z x r = store_from z x r (acquire z.pool r.pool)

unfoldable pub store_all : Sizes → List OrderStateReport → Receiver → Receiver
unfolding store_object
store_all z [] r = r
store_all z (x ∷ xs) r = store_all z xs (store_object z x r)

-- One turn of the loop that empties the ring buffer.
unfoldable pub hand_on : Sizes → ℕ → Receiver → Receiver
unfolding try_push local_release
hand_on z a r =
    let pushed = try_push z.queue a r.outgoing in
    record r {
      outgoing = pushed.1;
      pool = if pushed.0 then r.pool else (local_release z.pool a r.pool).1;
      next_to_read = u32 (r.next_to_read + 1);
    }

-- The loop, on fuel.
unfoldable pub drain : ℕ → Sizes → Receiver → Receiver
unfolding get_slot hand_on
drain zero z r = r
drain (suc fuel) z r = elim (get_slot z.ring r.objects r.next_to_read r.receive_buffer) [
  | none ↦ r
  | some a ↦ drain fuel z (hand_on z a r)
]

-- The loop with a turn for each slot of the buffer.
unfoldable pub drain_all : Sizes → Receiver → Receiver
unfolding drain
drain_all z r = drain (2 ^ z.ring) z r

abbrev free_packet : Receiver → Receiver
free_packet r = record r { freed = r.freed + 1 }

unfoldable pub handle_verdict : Sizes → Packet → Receiver → Verdict → Receiver
unfolding store_all drain_all
handle_verdict z pkt r (dropped true) = free_packet r
handle_verdict z pkt r (dropped false) = r
handle_verdict z pkt r accepted = free_packet (drain_all z (store_all z pkt.payload r))

-- The body of the loop of `Receive`.
unfoldable pub receive_packet : Sizes → Group → Packet → Receiver → Receiver
unfolding check_packet handle_verdict
receive_packet z g pkt r = handle_verdict z pkt r (check_packet g pkt)

-- `Receive` on a burst of packets.
unfoldable pub receive : Sizes → Group → List Packet → Receiver → Receiver
unfolding receive_packet
receive z g [] r = r
receive z g (pkt ∷ burst) r = receive z g burst (receive_packet z g pkt r)
