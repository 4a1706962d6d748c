-- ===== src/Multicast/Samples.antt =====
-- A receiver with a buffer of four slots, for tests.
use naoto_exchange.Common.{ℕ, List, false, none, pos}
use naoto_exchange.Wire.{OrderStateReport, OrderState}
use naoto_exchange.Queue.{new_queue, try_push}
use naoto_exchange.Mempool.{StoragePool}
use naoto_exchange.Multicast.Ring.{new_ring}
use naoto_exchange.Multicast.{Sizes, Receiver, Packet, Group}

abbrev pub sizes : Sizes
sizes = record { ring = 2; queue = 2; pool = 2 }

abbrev pub report : ℕ → OrderStateReport
report sequence = record {
  bought_delta = pos 2;
  sold_delta = pos 0;
  sold_attempt_delta = pos 0;
  sequence_id = sequence;
  client_id = 7;
  order_id = 1;
  trade_id = 0;
  bought_asset_id = 1;
  sold_asset_id = 0;
  state = OrderState.fill;
}

-- Four objects are free.
abbrev pub pool : StoragePool
pool = record {
  free = (try_push 2 3 (try_push 2 2 (try_push 2 1 (try_push 2 0 (new_queue (λ i. 9))).1).1).1).1;
  local_reuse_buffer = λ i. none;
  local_reuse_size = 0;
}

abbrev pub receiver : Receiver
receiver = record {
  outgoing = new_queue (λ i. 9);
  pool = pool;
  objects = λ i. report 99;
  receive_buffer = new_ring;
  next_to_read = 0;
  freed = 0;
}

abbrev pub group : Group
group = record { dst_ip = 5; dst_port = 6 }

abbrev pub packet : List OrderStateReport → Packet
packet reports = record {
  segments = 1;
  ip_checksum_bad = false;
  l4_checksum_bad = false;
  length = 500;
  ether_type = 2048;
  next_proto_id = 17;
  dst_addr = 5;
  dst_port = 6;
  payload = reports;
}
