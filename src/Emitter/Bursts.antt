-- ===== src/Emitter/Bursts.antt =====
-- The bursts of market_server/common/include/udp_multicast_emitter.hpp, whatever DPDK answers.
use naoto_exchange.Common.{
  length-take_le, length-take_min, All-take, ℕ, zero, suc, ◌+◌, ◌<◌, ◌≤◌, List, [], ◌∷◌, ◌++◌, ◌≡◌,
  inl, inr, refl, arith, ltb, length, take, drop, All, Bool-cases,
}
use native.Mathlib.Omega.{div_any}
use native.Mathlib.Nat.{mul-le-mul_left}
use naoto_exchange.Wire.{OrderStateReport, u32}
use naoto_exchange.Multicast.{Packet}
use naoto_exchange.Emitter.{
  Emitter, Nic, Sending, mtu, objects_per_packet, max_packets, fill_headers, stamp, after,
  send_turn, send_loop, transmit, start, send_batch,
}
use naoto_exchange.Emitter.Packets.{add_packet-All, add_packet-length}

length-stamp : (s : ℕ) (xs : List OrderStateReport) → length (stamp s xs) ≡ length xs
unfolding stamp
length-stamp s [] = refl
length-stamp s (x ∷ xs) = omega (arith, length-stamp (u32 (s + 1)) xs)

-- What every turn keeps, the loop keeps.
module _ {κ} (P : Sending → Type κ) (e : Emitter) (nic : Nic)
    (turns : (turn : ℕ) (items : List OrderStateReport) (s : Sending)
      → length items ≤ objects_per_packet e
      → length s.packets < max_packets e
      → P s
      → P (send_turn e nic turn items s)) where
  pub send_loop_keeps :
      (rounds turn : ℕ) (left : List OrderStateReport) (s : Sending)
      → P s
      → P (send_loop rounds e nic turn left s)
  unfolding send_loop
  send_loop_keeps zero turn left s p = p
  send_loop_keeps (suc rounds) turn [] s p = p
  send_loop_keeps (suc rounds) turn (x ∷ xs) s p =
      elim (Bool-cases (ltb (length s.packets) (max_packets e))) [
        | inl y ↦
            let n = objects_per_packet e in
            let more =
              send_loop_keeps rounds (turn + 1) (drop n (x ∷ xs)) _ (
                turns turn (take n (x ∷ xs)) s (length-take_le n (x ∷ xs)) (ground (arith, y)) p) in
            rw (send_loop, y) more
        | inr y ↦ rw (send_loop, y) p
      ]

-- A frame is as long as its headers and its objects, and these are no more than a packet takes.
abbrev IsSized : Emitter → Packet → Type 0
IsSized e p = p.length ≤ 14 + mtu

fill_headers-IsSized :
    (e : Emitter) (items : List OrderStateReport)
    → length items ≤ objects_per_packet e
    → IsSized e (fill_headers e items)
unfolding fill_headers objects_per_packet
fill_headers-IsSized e items h =
    omega (arith, div_any 1472 e.object_size, mul-le-mul_left e.object_size h)

abbrev IsWithin : Emitter → Sending → Type 0
IsWithin e s = (length s.packets ≤ max_packets e) × All (IsSized e) s.packets

send_turn-IsWithin :
    (e : Emitter) (nic : Nic) (turn : ℕ) (items : List OrderStateReport) (s : Sending)
    → length items ≤ objects_per_packet e
    → length s.packets < max_packets e
    → IsWithin e s
    → IsWithin e (send_turn e nic turn items s)
unfolding send_turn
send_turn-IsWithin e nic turn items s h l (p, a) = (
  omega (
    arith,
    l,
    add_packet-length e (nic.allocates turn) (nic.appends turn) (stamp s.next_id items) (record s {
      next_id = after s.next_id items;
      stamped = s.stamped ++ stamp s.next_id items;
    }),
  ),
  add_packet-All (IsSized e) e (nic.allocates turn) (nic.appends turn) (stamp s.next_id items) _
      (fill_headers-IsSized e _ (omega (arith, h, length-stamp s.next_id items))) a,
)

pub send_loop-IsWithin :
    (e : Emitter) (nic : Nic) (items : List OrderStateReport)
    → let t = send_loop (length items) e nic 0 items (start e) in
      (length t.packets ≤ max_packets e) × All (λ p. p.length ≤ 14 + mtu) t.packets
send_loop-IsWithin e nic items =
    send_loop_keeps (IsWithin e) e nic (send_turn-IsWithin e nic) (length items) 0 items (start e)
      (omega arith, tt)

-- Whatever the batch and whatever DPDK answers, the loop stays within the array of packets, and no frame
-- is longer than its Ethernet header and 1,500 bytes.
pub send_batch-IsSized :
    (e : Emitter) (nic : Nic) (items : List OrderStateReport)
    → (length (send_batch e nic items).burst ≤ max_packets e)
      × All (λ p. p.length ≤ 14 + mtu) (send_batch e nic items).burst
unfolding send_batch transmit
send_batch-IsSized e nic items =
    let (l, a) = send_loop-IsWithin e nic items in
    let t = send_loop (length items) e nic 0 items (start e) in
    (omega (arith, l, length-take_min nic.takes t.packets), All-take (IsSized e) nic.takes _ a)
