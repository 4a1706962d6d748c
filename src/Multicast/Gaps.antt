-- ===== src/Multicast/Gaps.antt =====
-- A report that is missing: what stands behind it waits, and what comes in its place goes on.
use naoto_exchange.Common.{
  ℕ, ◌%◌, ◌^◌, List, [], ◌∷◌, Bool, true, false, Option, none, some, ◌==◌, ◌≡◌, ◌≢◌, inl, inr, refl,
  ap, sym, ◌∙◌, arith, All, update, Bool-cases,
}
use naoto_exchange.Wire.{OrderStateReport}
use naoto_exchange.Mempool.{StoragePool, acquire}
use naoto_exchange.Multicast.Ring.{RingBuffer, get_slot, valid_slot, is_too_old, add_slot}
use naoto_exchange.Multicast.{
  Sizes, Receiver, Packet, Group, Verdict, accepted, dropped, check_packet, add_or_release,
  store_from, store_object, store_all, handle_verdict, receive_packet, receive,
}
use naoto_exchange.Multicast.Order.{IsEmpty, drain_all_empty}

-- No object of the packet has the sequence id.
abbrev pub Lacks : ℕ → Packet → Type 0
Lacks s pkt = All (λ x. x.sequence_id ≢ s) pkt.payload

-- Nothing to read, before and after, and nothing passed on.
pub record Waits (z : Sizes) (r r' : Receiver) : Type 0 where
  pub empty : IsEmpty z r'
  pub next : r'.next_to_read ≡ r.next_to_read
  pub outgoing : r'.outgoing ≡ r.outgoing

updated : (a : ℕ) (x : OrderStateReport) (f : ℕ → OrderStateReport) → update a x f a ≡ x
unfolding update
updated a x f = ground arith

differs : (s n : ℕ) → n ≢ s → (s == n) ≡ false
differs s n h = ground arith

overwritten :
    (objects : ℕ → OrderStateReport) (a s : ℕ) (x : OrderStateReport) (o : Option ℕ)
    → x.sequence_id ≢ s
    → valid_slot objects s o ≡ none
    → valid_slot (update a x objects) s o ≡ none
unfolding update
overwritten objects a s x none h e = refl
overwritten objects a s x (some b) h e = elim (Bool-cases (b == a)) [
  | inl t ↦ rw (t, update, differs s x.sequence_id h) refl
  | inr t ↦ rw (t, update) e
]

added_elsewhere :
    (k : ℕ) (objects : ℕ → OrderStateReport) (a s : ℕ) (b : RingBuffer)
    → (objects a).sequence_id ≢ s
    → get_slot k objects s b ≡ none
    → get_slot k objects s (add_slot k objects a b).1 ≡ none
unfolding get_slot add_slot update
added_elsewhere k objects a s b h e = elim (Bool-cases (is_too_old k (objects a).sequence_id b)) [
  | inl t ↦ rw t e
  | inr t ↦ elim (Bool-cases (s % 2 ^ k == (objects a).sequence_id % 2 ^ k)) [
    | inl u ↦ rw (t, u, update, differs s (objects a).sequence_id h) refl
    | inr u ↦ rw (t, u, update) e
  ]
]

stored :
    (z : Sizes) (a : ℕ) (r : Receiver) (b : Bool × RingBuffer)
    → IsEmpty z r
    → get_slot z.ring r.objects r.next_to_read b.1 ≡ none
    → Waits z r (add_or_release z a r b)
stored z a r (true, ring) e h = record { empty = h; next = refl; outgoing = refl }
stored z a r (false, ring) e h = record { empty = e; next = refl; outgoing = refl }

store_from_waits :
    (z : Sizes) (x : OrderStateReport) (r : Receiver) (o : Option ℕ × StoragePool)
    → x.sequence_id ≢ r.next_to_read
    → IsEmpty z r
    → Waits z r (store_from z x r o)
unfolding update get_slot
store_from_waits z x r (none, pool) h e = record { empty = e; next = refl; outgoing = refl }
store_from_waits z x r (some a, pool) h e =
    let objects = update a x r.objects in
    let old =
      overwritten r.objects a r.next_to_read x
        (r.receive_buffer.buffer (r.next_to_read % 2 ^ z.ring)) h e in
    let b = add_slot z.ring objects a r.receive_buffer in
    let w =
      stored z a (record r { pool = pool; objects = objects }) b old
        (added_elsewhere z.ring objects a r.next_to_read r.receive_buffer
          (λ i. h (sym (ap (λ o. o.sequence_id) (updated a x r.objects)) ∙ i)) old) in
    record { empty = w.empty; next = w.next; outgoing = w.outgoing }

store_all_waits :
    (z : Sizes) (xs : List OrderStateReport) (r r0 : Receiver)
    → All (λ x. x.sequence_id ≢ r0.next_to_read) xs
    → Waits z r0 r
    → Waits z r0 (store_all z xs r)
unfolding store_all store_object
store_all_waits z [] r r0 h w = w
store_all_waits z (x ∷ xs) r r0 h w =
    let v = store_from_waits z x r (acquire z.pool r.pool) (λ e. h.0 (e ∙ w.next)) w.empty in
    store_all_waits z xs (store_object z x r) r0 h.1
      (record { empty = v.empty; next = v.next ∙ w.next; outgoing = v.outgoing ∙ w.outgoing })

packet_waits :
    (z : Sizes) (pkt : Packet) (r r0 : Receiver) (v : Verdict)
    → Lacks r0.next_to_read pkt
    → Waits z r0 r
    → Waits z r0 (handle_verdict z pkt r v)
unfolding handle_verdict
packet_waits z pkt r r0 (dropped true) h w = record {
  empty = w.empty;
  next = w.next;
  outgoing = w.outgoing;
}
packet_waits z pkt r r0 (dropped false) h w = w
packet_waits z pkt r r0 accepted h w =
    let v = store_all_waits z pkt.payload r r0 h w in
    rw (drain_all_empty z (store_all z pkt.payload r) v.empty)
      (record { empty = v.empty; next = v.next; outgoing = v.outgoing })

burst_waits :
    (z : Sizes) (g : Group) (burst : List Packet) (r r0 : Receiver)
    → All (Lacks r0.next_to_read) burst
    → Waits z r0 r
    → Waits z r0 (receive z g burst r)
unfolding receive receive_packet
burst_waits z g [] r r0 h w = w
burst_waits z g (pkt ∷ burst) r r0 h w =
    burst_waits z g burst (receive_packet z g pkt r) r0 h.1
      (packet_waits z pkt r r0 (check_packet g pkt) h.0 w)

-- While no packet brings the report that is to be read next, nothing is passed on: however many others
-- come, in whatever order, the queue stays as it was, and the receiver waits for the same report.
pub receive_waits :
    (z : Sizes) (g : Group) (burst : List Packet) (r : Receiver)
    → IsEmpty z r
    → All (Lacks r.next_to_read) burst
    → Waits z r (receive z g burst r)
receive_waits z g burst r e h =
    burst_waits z g burst r r h (record { empty = e; next = refl; outgoing = refl })
