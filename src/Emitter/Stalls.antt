-- ===== src/Emitter/Stalls.antt =====
-- market_server/common/include/udp_multicast_emitter.hpp with udp_multicast_receiver.hpp: a packet that
-- the emitter could not allocate has used up the numbers of its objects.
use naoto_exchange.Common.{
  All-take, ℕ, zero, suc, ◌+◌, ◌^◌, ◌<◌, ◌≤◌, List, [], ◌∷◌, ◌++◌, false, ◌≡◌, ◌≢◌, inl, inr, refl,
  ap, sym, subst, ◌∙◌, arith, ltb, length, length-append, length-drop, take, drop, take-drop, All,
  All-append, Bool-cases,
}
use naoto_exchange.Wire.{OrderStateReport, u32}
use naoto_exchange.Multicast.{Sizes, Group, Receiver, Packet, receive}
use naoto_exchange.Multicast.Order.{IsEmpty}
use naoto_exchange.Multicast.Gaps.{Lacks, Waits, receive_waits}
use naoto_exchange.Emitter.{
  Emitter, Nic, Sending, objects_per_packet, max_packets, fill_headers, stamp, after, send_turn,
  send_loop, transmit, start, send_batch,
}
use naoto_exchange.Emitter.Numbers.{after-length, stamp-take, stamp-differs}
use naoto_exchange.Emitter.Packets.{send_loop-stamped, send_turn-stamped, add_packet-All}

All-split {ℓ κ} :
    {A : Type ℓ} (P : A → Type κ) (xs ys : List A) → All P (xs ++ ys) → All P xs × All P ys
All-split P [] ys a = (tt, a)
All-split P (x ∷ xs) ys (p, a) = let (b, c) = All-split P xs ys a in ((p, b), c)

-- Packets are filled with numbered objects.
module _ (Q : OrderStateReport → Type 0) (e : Emitter) (nic : Nic) where
  send_turn-All :
      (turn : ℕ) (items : List OrderStateReport) (s : Sending)
      → All Q (stamp s.next_id items)
      → All (λ p. All Q p.payload) s.packets
      → All (λ p. All Q p.payload) (send_turn e nic turn items s).packets
  unfolding send_turn fill_headers
  send_turn-All turn items s q a =
      add_packet-All (λ p. All Q p.payload) e (nic.allocates turn) (nic.appends turn)
        (stamp s.next_id items) _ q a

  pub send_loop-All :
      (rounds turn : ℕ) (left : List OrderStateReport) (s : Sending)
      → All Q (stamp s.next_id left)
      → All (λ p. All Q p.payload) s.packets
      → All (λ p. All Q p.payload) (send_loop rounds e nic turn left s).packets
  unfolding send_loop
  send_loop-All zero turn left s q a = a
  send_loop-All (suc rounds) turn [] s q a = a
  send_loop-All (suc rounds) turn (x ∷ xs) s q a =
      let n = objects_per_packet e in
      let parts =
        All-split Q (stamp s.next_id (take n (x ∷ xs))) _
          (subst (All Q) (sym (stamp-take s.next_id n (x ∷ xs))) q) in
      let id_lem = (send_turn-stamped e nic turn (take n (x ∷ xs)) s).1 in
      elim (Bool-cases (ltb (length s.packets) (max_packets e))) [
        | inl y ↦
            let more =
              send_loop-All rounds (turn + 1) (drop n (x ∷ xs)) _
                (subst (λ i. All Q (stamp i (drop n (x ∷ xs)))) (sym id_lem) parts.1)
                (send_turn-All turn (take n (x ∷ xs)) s parts.0 a) in
            rw (send_loop, y) more
        | inr y ↦ rw (send_loop, y) a
      ]

  send_batch-All :
      (items : List OrderStateReport)
      → All Q (stamp e.sequence_id items)
      → All (λ p. All Q p.payload) (send_batch e nic items).burst
  unfolding send_batch transmit
  send_batch-All items q =
      All-take (λ p. All Q p.payload) nic.takes _
        (send_loop-All (length items) 0 items (start e) q tt)

-- The emitter after a batch.
pub send_batch-emitter :
    (e : Emitter) (nic : Nic) (items : List OrderStateReport)
    → 0 < objects_per_packet e
    → length items ≤ e.batch_size
    → e.sequence_id < 2 ^ 32
    → (send_batch e nic items).emitter
      ≡ (record e { sequence_id = u32 (e.sequence_id + length items) })
unfolding send_batch transmit
send_batch-emitter e nic items o l h =
    let (held, next) =
      send_loop-stamped e nic o (length items) 0 items (start e) (omega arith)
        (λ some_left. omega (arith, l)) in
    ap (λ i. record e { sequence_id = i }) (next ∙ after-length e.sequence_id items h)

-- Batches sent one after the other, each with what DPDK answers to it.
unfoldable pub send_batches : Emitter → List (Nic × List OrderStateReport) → List Packet
unfolding send_batch
send_batches e [] = []
send_batches e ((nic, items) ∷ calls) =
    let sent = send_batch e nic items in sent.burst ++ send_batches sent.emitter calls

abbrev pub count : List (Nic × List OrderStateReport) → ℕ
count [] = 0
count (c ∷ calls) = length c.1 + count calls

-- Each batch fits the emitter's.
abbrev pub FitBatch : Emitter → List (Nic × List OrderStateReport) → Type 0
FitBatch e calls = All (λ c. length c.1 ≤ e.batch_size) calls

-- Batches that are numbered after `m`, and do not come round to it, lack it.
send_batches-Lacks :
    (m n : ℕ) (e : Emitter) (calls : List (Nic × List OrderStateReport))
    → m < 2 ^ 32
    → e.sequence_id ≡ u32 (m + n)
    → 0 < n
    → n + count calls ≤ 2 ^ 32
    → 0 < objects_per_packet e
    → FitBatch e calls
    → All (Lacks m) (send_batches e calls)
unfolding send_batches objects_per_packet
send_batches-Lacks m n e [] h i l f o b = tt
send_batches-Lacks m n e ((nic, items) ∷ calls) h i l f o (b, bs) =
    let next : Emitter = record e { sequence_id = u32 (e.sequence_id + length items) } in
    let id : u32 (e.sequence_id + length items) ≡ u32 (m + (n + length items)) = omega (arith, i) in
    All-append (Lacks m) (send_batch e nic items).burst _
      (send_batch-All (λ x. x.sequence_id ≢ m) e nic items
        (stamp-differs m n e.sequence_id items h i l (omega (arith, f))))
      (rw (send_batch-emitter e nic items o b (omega (arith, i))) (
        send_batches-Lacks m (n + length items) next calls h id (omega arith) (omega (arith, f)) o
          bs))

-- A turn without a packet only numbers its objects.
send_turn_lost :
    (e : Emitter) (nic : Nic) (items : List OrderStateReport)
    → nic.allocates 0 ≡ false
    → ((send_turn e nic 0 items (start e)).packets ≡ [])
      × ((send_turn e nic 0 items (start e)).next_id ≡ after e.sequence_id items)
unfolding send_turn
send_turn_lost e nic items h = rw h (refl, refl)

first_lost_loop :
    (e : Emitter) (nic : Nic) (rounds : ℕ) (x : OrderStateReport) (xs : List OrderStateReport)
    → nic.allocates 0 ≡ false
    → e.sequence_id < 2 ^ 32
    → 0 < objects_per_packet e
    → length (x ∷ xs) ≤ 2 ^ 32
    → All (Lacks e.sequence_id) (send_loop (suc rounds) e nic 0 (x ∷ xs) (start e)).packets
unfolding send_loop
first_lost_loop e nic rounds x xs h i o l =
    let n = objects_per_packet e in
    let items = take n (x ∷ xs) in
    let (unsent, id) = send_turn_lost e nic items h in
    let number = id ∙ after-length e.sequence_id items i in
    let parts = ap (λ (l : List OrderStateReport). length l) (take-drop n (x ∷ xs)) in
    let sum = length-append items (drop n (x ∷ xs)) in
    let rest = length-drop n (x ∷ xs) in
    let far =
      stamp-differs e.sequence_id (length items) _ (drop n (x ∷ xs)) i number
        (omega (arith, parts, sum, rest)) (omega (arith, parts, sum)) in
    elim (Bool-cases (ltb 0 (max_packets e))) [
      | inl y ↦
          let more =
            send_loop-All (λ x. x.sequence_id ≢ e.sequence_id) e nic rounds 1 (drop n (x ∷ xs)) _
              far (subst (λ l. All (Lacks e.sequence_id) l) (sym unsent) tt) in
          rw (send_loop, y) more
      | inr y ↦ rw (send_loop, y) tt
    ]

-- The first packet of a batch is not allocated: none of the others holds its first object's number.
first_lost :
    (e : Emitter) (nic : Nic) (x : OrderStateReport) (xs : List OrderStateReport)
    → nic.allocates 0 ≡ false
    → e.sequence_id < 2 ^ 32
    → 0 < objects_per_packet e
    → length (x ∷ xs) ≤ 2 ^ 32
    → All (Lacks e.sequence_id) (send_batch e nic (x ∷ xs)).burst
unfolding send_batch transmit
first_lost e nic x xs h i o l =
    All-take (Lacks e.sequence_id) nic.takes _ (first_lost_loop e nic (length xs) x xs h i o l)

-- When the emitter cannot allocate the first packet of a batch, a receiver that has nothing to read and
-- waits for the batch's first report passes on nothing of all that the emitter sends: neither the rest of
-- the batch nor the batches after it, as long as at most 2 ^ 32 reports are numbered in batches that fit
-- the emitter's, whatever DPDK answers to them.
pub lost_packet_stalls :
    (z : Sizes) (g : Group) (r : Receiver) (e : Emitter) (nic : Nic) (x : OrderStateReport)
    (xs : List OrderStateReport) (calls : List (Nic × List OrderStateReport))
    → IsEmpty z r
    → e.sequence_id ≡ r.next_to_read
    → e.sequence_id < 2 ^ 32
    → 0 < objects_per_packet e
    → FitBatch e ((nic, x ∷ xs) ∷ calls)
    → count ((nic, x ∷ xs) ∷ calls) ≤ 2 ^ 32
    → nic.allocates 0 ≡ false
    → Waits z r (receive z g (send_batches e ((nic, x ∷ xs) ∷ calls)) r)
unfolding send_batches objects_per_packet
lost_packet_stalls z g r e nic x xs calls empty waits i o (b, bs) f h =
    let next : Emitter = record e { sequence_id = u32 (e.sequence_id + length (x ∷ xs)) } in
    let first = first_lost e nic x xs h i o (omega (arith, f)) in
    let others =
      send_batches-Lacks e.sequence_id (length (x ∷ xs)) next calls i refl (omega arith) f o bs in
    let all =
      All-append (Lacks e.sequence_id) (send_batch e nic (x ∷ xs)).burst _ first
        (rw (send_batch-emitter e nic (x ∷ xs) o b i) others) in
    receive_waits z g _ r empty
      (subst (λ m. All (Lacks m) (send_batches e ((nic, x ∷ xs) ∷ calls))) waits all)
