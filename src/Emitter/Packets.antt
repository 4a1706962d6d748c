-- ===== src/Emitter/Packets.antt =====
-- The packets that the loop of market_server/common/include/udp_multicast_emitter.hpp builds.
use naoto_exchange.Common.{
  ℕ, zero, suc, ◌+◌, ◌*◌, ◌/◌, ◌%◌, ◌<◌, ◌≤◌, List, [], ◌∷◌, ◌++◌, Bool, true, false, ◌≡◌, inl, inr,
  refl, ap, sym, ◌∙◌, arith, append_assoc, append-nil, ◌==◌, ltb, if◌then◌else◌, length,
  length-append, length-drop, take, drop, All, All-append, Bool-cases,
}
use native.Mathlib.Nat.{mul-le-mul_right, div-add-mod, mod-lt}
use naoto_exchange.Wire.{OrderStateReport}
use naoto_exchange.Multicast.{Packet}
use naoto_exchange.Emitter.{
  Emitter, Nic, Sending, objects_per_packet, max_packets, fill_headers, stamp, after, add_packet,
  send_turn, send_loop,
}
use naoto_exchange.Emitter.Numbers.{stamp-take, after-take}

-- What a turn does with the packets, and whether it does or not, the objects are numbered.
add_packet-stamped :
    (e : Emitter) (b c : Bool) (items : List OrderStateReport) (s : Sending)
    → ((add_packet e b c items s).stamped ≡ s.stamped)
      × ((add_packet e b c items s).next_id ≡ s.next_id)
add_packet-stamped e false c items s = (refl, refl)
add_packet-stamped e true false items s = (refl, refl)
add_packet-stamped e true true items s = (refl, refl)

pub add_packet-length :
    (e : Emitter) (b c : Bool) (items : List OrderStateReport) (s : Sending)
    → length (add_packet e b c items s).packets ≤ suc (length s.packets)
add_packet-length e false c items s = omega arith
add_packet-length e true false items s = omega arith
add_packet-length e true true items s =
    omega (arith, length-append {0} s.packets (fill_headers e items ∷ []))

pub add_packet-All {κ} :
    (P : Packet → Type κ) (e : Emitter) (b c : Bool) (items : List OrderStateReport) (s : Sending)
    → P (fill_headers e items)
    → All P s.packets
    → All P (add_packet e b c items s).packets
add_packet-All P e false c items s p a = a
add_packet-All P e true false items s p a = a
add_packet-All P e true true items s p a = All-append P s.packets _ a (p, tt)

below : (p q n : ℕ) → p * n < q * n → p < q
below p q n l = elim (Bool-cases (ltb p q)) [
  | inl y ↦ ground (arith, y)
  | inr y ↦
      let h : q ≤ p = ground (arith, y) in
      absurd (omega (arith, mul-le-mul_right {m = q} {n = p} n h, l))
]

-- There is room in the array of packets for what is left of a batch.
pub room_lem :
    (batch n p : ℕ) → 0 < n → p * n < batch → p < batch / n + (if batch % n == 0 then 0 else 1)
room_lem batch n p h l =
    let parts = div-add-mod batch n in
    let rest = mod-lt batch h in
    elim (Bool-cases (batch % n == 0)) [
      | inl y ↦
          let none_left : batch % n ≡ 0 = ground (arith, y) in
          rw y (omega (arith, below p (batch / n) n (omega (arith, parts, none_left, l))))
      | inr y ↦ rw y (below p (batch / n + 1) n (omega (arith, parts, rest, l)))
    ]

send_loop-turn :
    (rounds : ℕ) (e : Emitter) (nic : Nic) (turn : ℕ) (x : OrderStateReport)
    (xs : List OrderStateReport) (s : Sending)
    → length s.packets < max_packets e
    → let n = objects_per_packet e in
      send_loop (suc rounds) e nic turn (x ∷ xs) s
      ≡ send_loop rounds e nic
          (turn + 1)
          (drop n (x ∷ xs))
          (send_turn e nic turn (take n (x ∷ xs)) s)
unfolding send_loop
send_loop-turn rounds e nic turn x xs s h =
    let open_slot : ltb (length s.packets) (max_packets e) ≡ true = ground (arith, h) in
    rw (send_loop, open_slot) refl

send_turn-length :
    (e : Emitter) (nic : Nic) (turn : ℕ) (items : List OrderStateReport) (s : Sending)
    → length (send_turn e nic turn items s).packets ≤ suc (length s.packets)
unfolding send_turn
send_turn-length e nic turn items s =
    add_packet-length e (nic.allocates turn) (nic.appends turn) (stamp s.next_id items) _

pub send_turn-stamped :
    (e : Emitter) (nic : Nic) (turn : ℕ) (items : List OrderStateReport) (s : Sending)
    → let t = send_turn e nic turn items s in
      (t.stamped ≡ s.stamped ++ stamp s.next_id items) × (t.next_id ≡ after s.next_id items)
unfolding send_turn
send_turn-stamped e nic turn items s =
    add_packet-stamped e (nic.allocates turn) (nic.appends turn) (stamp s.next_id items) _

-- Room for the packets of what is left.
abbrev pub HasRoom : Emitter → List OrderStateReport → List Packet → Type 0
HasRoom e left packets =
    0 < length left → length packets * objects_per_packet e + length left ≤ e.batch_size

HasRoom-now :
    (e : Emitter) (x : OrderStateReport) (xs : List OrderStateReport) (packets : List Packet)
    → 0 < objects_per_packet e
    → HasRoom e (x ∷ xs) packets
    → length packets < max_packets e
unfolding max_packets
HasRoom-now e x xs packets h room =
    let most = room (omega arith) in
    room_lem e.batch_size (objects_per_packet e) (length packets) h (omega (arith, most))

HasRoom-next :
    (e : Emitter) (left : List OrderStateReport) (packets packets' : List Packet)
    → 0 < length left
    → HasRoom e left packets
    → length packets' ≤ suc (length packets)
    → HasRoom e (drop (objects_per_packet e) left) packets'
HasRoom-next e left packets packets' h room l more =
    let n = objects_per_packet e in
    let most = room h in
    let rest = length-drop n left in
    let grown = mul-le-mul_right {m = length packets'} {n = suc (length packets)} n l in
    omega (arith, most, rest, grown, more)

chain :
    (old mid final : List OrderStateReport) (id id' n : ℕ) (left : List OrderStateReport)
    → mid ≡ old ++ stamp id (take n left)
    → id' ≡ after id (take n left)
    → final ≡ mid ++ stamp id' (drop n left)
    → final ≡ old ++ stamp id left
chain old mid final id id' n left p q r =
    r
    ∙ rw (p, q)
        (append_assoc old (stamp id (take n left)) _ ∙ ap (λ l. old ++ l) (stamp-take id n left))

module _ (e : Emitter) (nic : Nic) (h : 0 < objects_per_packet e) where
  -- The loop numbers the objects it is given, all of them, since the array has room for their packets.
  pub send_loop-stamped :
      (rounds turn : ℕ) (left : List OrderStateReport) (s : Sending)
      → length left ≤ rounds
      → HasRoom e left s.packets
      → let t = send_loop rounds e nic turn left s in
        (t.stamped ≡ s.stamped ++ stamp s.next_id left) × (t.next_id ≡ after s.next_id left)
  unfolding send_loop stamp after
  send_loop-stamped zero turn [] s l room = (sym (append-nil s.stamped), refl)
  send_loop-stamped (suc rounds) turn [] s l room = (sym (append-nil s.stamped), refl)
  send_loop-stamped zero turn (x ∷ xs) s l room = absurd (omega arith)
  send_loop-stamped (suc rounds) turn (x ∷ xs) s l room =
      let n = objects_per_packet e in
      let items = take n (x ∷ xs) in
      let step = send_turn e nic turn items s in
      let step_lem = send_turn-stamped e nic turn items s in
      let room' =
        HasRoom-next e (x ∷ xs) s.packets step.packets (omega arith) room
          (send_turn-length e nic turn items s) in
      let shorter : length (drop n (x ∷ xs)) ≤ rounds = omega (arith, length-drop n (x ∷ xs)) in
      let more = send_loop-stamped rounds (turn + 1) (drop n (x ∷ xs)) step shorter room' in
      rw (send_loop-turn rounds e nic turn x xs s (HasRoom-now e x xs s.packets h room)) (
        chain s.stamped step.stamped _ s.next_id step.next_id n (x ∷ xs) step_lem.0 step_lem.1
            more.0,
        more.1 ∙ rw (step_lem.1) (after-take s.next_id n (x ∷ xs)),
      )
