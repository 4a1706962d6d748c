-- ===== src/Emitter.antt =====
-- market_server/common/include/udp_multicast_emitter.hpp: the thread that numbers the engine's reports
-- and sends them to the group, a few in a packet.
pub mod Numbers
pub mod Packets
pub mod Bursts
pub mod Delivers
pub mod Stalls
pub mod Arrives
mod Tests
use naoto_exchange.Common.{
  ℕ, zero, suc, ◌+◌, ◌-◌, ◌*◌, ◌/◌, ◌%◌, List, [], ◌∷◌, ◌++◌, Bool, true, false, Option, none, some,
  ◌==◌, ltb, if◌then◌else◌, length, take, drop, min,
}
use naoto_exchange.Wire.{OrderStateReport, u32}
use naoto_exchange.Multicast.{Packet, ether_type_ipv4, ipproto_udp, header_size}

-- The members that `Send` uses, `sizeof(T)` and `BatchSize`. The sender's own addresses go into the packet
-- too, and no receiver reads them.
pub record Emitter : Type 0 where
  pub sequence_id : ℕ
  pub dst_ip : ℕ
  pub dst_port : ℕ
  pub object_size : ℕ
  pub batch_size : ℕ

-- What DPDK answers in one call of `Send`: to the allocation of a packet and to the reservation of its
-- space at each turn of the loop, and how many packets of the burst it takes.
pub record Nic : Type 0 where
  pub allocates : ℕ → Bool
  pub appends : ℕ → Bool
  pub takes : ℕ

abbrev pub mtu : ℕ
mtu = 1500

-- `ObjectsPerPacket`
unfoldable pub objects_per_packet : Emitter → ℕ
objects_per_packet e = (mtu - 20 - 8) / e.object_size

-- `MaxPackets`
unfoldable pub max_packets : Emitter → ℕ
unfolding objects_per_packet
max_packets e =
    let n = objects_per_packet e in e.batch_size / n + (if e.batch_size % n == 0 then 0 else 1)

-- `FillHeaders`, the headers in host byte order, with `CopyPayload`.
unfoldable pub fill_headers : Emitter → List OrderStateReport → Packet
fill_headers e items = record {
  segments = 1;
  ip_checksum_bad = false;
  l4_checksum_bad = false;
  length = header_size + e.object_size * length items;
  ether_type = ether_type_ipv4;
  next_proto_id = ipproto_udp;
  dst_addr = e.dst_ip;
  dst_port = e.dst_port;
  payload = items;
}

-- The objects with the numbers that the loop writes in them, and the number after.
unfoldable pub stamp : ℕ → List OrderStateReport → List OrderStateReport
stamp s [] = []
stamp s (x ∷ xs) = record x { sequence_id = s } ∷ stamp (u32 (s + 1)) xs

unfoldable pub after : ℕ → List OrderStateReport → ℕ
after s [] = s
after s (x ∷ xs) = after (u32 (s + 1)) xs

-- `SequenceId`, the packets built so far, the objects numbered so far and the packets freed.
pub record Sending : Type 0 where
  pub next_id : ℕ
  pub packets : List Packet
  pub stamped : List OrderStateReport
  pub freed : ℕ

abbrev pub add_packet : Emitter → Bool → Bool → List OrderStateReport → Sending → Sending
add_packet e false appends items s = s
add_packet e true false items s = record s { freed = s.freed + 1 }
add_packet e true true items s = record s { packets = s.packets ++ (fill_headers e items ∷ []) }

-- One turn of the loop of the batched `Send`, on the objects of one packet.
unfoldable pub send_turn : Emitter → Nic → ℕ → List OrderStateReport → Sending → Sending
unfolding stamp after fill_headers
send_turn e nic turn items s =
    let numbered = stamp s.next_id items in
    add_packet e (nic.allocates turn) (nic.appends turn) numbered
      (record s { next_id = after s.next_id items; stamped = s.stamped ++ numbered })

-- The loop. Each turn takes one object at least, so that as many rounds as there are objects suffice.
unfoldable pub send_loop : ℕ → Emitter → Nic → ℕ → List OrderStateReport → Sending → Sending
unfolding send_turn max_packets objects_per_packet
send_loop zero e nic turn left s = s
send_loop (suc rounds) e nic turn [] s = s
send_loop (suc rounds) e nic turn (x ∷ xs) s =
    let n = objects_per_packet e in
    let rest =
      send_loop rounds e nic (turn + 1) (drop n (x ∷ xs))
        (send_turn e nic turn (take n (x ∷ xs)) s) in
    if ltb (length s.packets) (max_packets e) then rest else s

-- The packets that leave, the emitter after, and the packets freed.
pub record Sent : Type 0 where
  pub emitter : Emitter
  pub burst : List Packet
  pub freed : ℕ

-- `rte_eth_tx_burst`, and the release of the packets that it does not take.
unfoldable pub transmit : Emitter → Nic → Sending → Sent
transmit e nic s = record {
  emitter = record e { sequence_id = s.next_id };
  burst = take nic.takes s.packets;
  freed = s.freed + (length s.packets - nic.takes);
}

abbrev pub start : Emitter → Sending
start e = record { next_id = e.sequence_id; packets = []; stamped = []; freed = 0 }

-- The batched `Send`.
unfoldable pub send_batch : Emitter → Nic → List OrderStateReport → Sent
unfolding send_loop transmit
send_batch e nic items = transmit e nic (send_loop (length items) e nic 0 items (start e))

-- `Send` of one object.
unfoldable pub send_one : Emitter → Nic → OrderStateReport → Sent
unfolding send_turn transmit
send_one e nic x = transmit e nic (send_turn e nic 0 (x ∷ []) (start e))
