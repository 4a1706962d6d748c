-- ===== src/Emitter/Delivers.antt =====
-- What the packets of market_server/common/include/udp_multicast_emitter.hpp hold.
use naoto_exchange.Common.{
  take_all, ℕ, ◌+◌, ◌^◌, ◌<◌, ◌≤◌, List, [], ◌∷◌, ◌++◌, true, ◌≡◌, refl, ap, sym, ◌∙◌, arith,
  append_assoc, append-nil, length,
}
use naoto_exchange.Wire.{OrderStateReport, u32}
use naoto_exchange.Multicast.{Packet}
use naoto_exchange.Emitter.{
  Emitter, Nic, Sending, objects_per_packet, max_packets, fill_headers, stamp, send_turn, send_loop,
  transmit, start, send_batch,
}
use naoto_exchange.Emitter.Numbers.{after-length}
use naoto_exchange.Emitter.Packets.{send_loop-stamped}
use naoto_exchange.Emitter.Bursts.{send_loop_keeps, send_loop-IsWithin}

-- The objects of packets, in order.
abbrev pub payloads : List Packet → List OrderStateReport
payloads [] = []
payloads (p ∷ ps) = p.payload ++ payloads ps

payloads-append : (ps qs : List Packet) → payloads (ps ++ qs) ≡ payloads ps ++ payloads qs
payloads-append [] qs = refl
payloads-append (p ∷ ps) qs =
    ap (λ l. p.payload ++ l) (payloads-append ps qs)
    ∙ sym (append_assoc p.payload (payloads ps) (payloads qs))

abbrev HoldsAll : Sending → Type 0
HoldsAll s = (payloads s.packets ≡ s.stamped) × (s.freed ≡ 0)

-- DPDK gives every packet and its space, and takes every packet.
pub record Serves (e : Emitter) (nic : Nic) : Type 0 where
  pub allocated : (turn : ℕ) → nic.allocates turn ≡ true
  pub appended : (turn : ℕ) → nic.appends turn ≡ true
  pub taken : max_packets e ≤ nic.takes

send_turn-HoldsAll :
    (e : Emitter) (nic : Nic) (turn : ℕ) (items : List OrderStateReport) (s : Sending)
    → Serves e nic
    → HoldsAll s
    → HoldsAll (send_turn e nic turn items s)
unfolding send_turn fill_headers
send_turn-HoldsAll e nic turn items s v (h, z) =
    rw (v.allocated turn, v.appended turn)
      (payloads-append s.packets _ ∙ rw (h, append-nil (stamp s.next_id items)) refl, z)

-- Where DPDK serves the emitter, a batch that fits the emitter's leaves in full and in order, its objects
-- numbered from the emitter's sequence id on, and the next batch is numbered from there.
pub payloads-send_batch :
    (e : Emitter) (nic : Nic) (items : List OrderStateReport)
    → Serves e nic
    → 0 < objects_per_packet e
    → length items ≤ e.batch_size
    → e.sequence_id < 2 ^ 32
    → let sent = send_batch e nic items in
      (payloads sent.burst ≡ stamp e.sequence_id items)
      × (sent.emitter.sequence_id ≡ u32 (e.sequence_id + length items))
      × (sent.freed ≡ 0)
unfolding send_batch transmit
payloads-send_batch e nic items v h l f =
    let t = send_loop (length items) e nic 0 items (start e) in
    let numbered =
      send_loop-stamped e nic h (length items) 0 items (start e) (omega arith)
        (λ some_left. omega (arith, l)) in
    let (held, unfreed) =
      send_loop_keeps HoldsAll e nic (λ turn xs s a b. send_turn-HoldsAll e nic turn xs s v)
        (length items) 0 items (start e) (refl, refl) in
    let few = (send_loop-IsWithin e nic items).0 in
    let whole = take_all nic.takes t.packets (omega (arith, few, v.taken)) in
    (
      rw whole (held ∙ numbered.0),
      numbered.1 ∙ after-length e.sequence_id items f,
      omega (arith, unfreed, few, v.taken),
    )
