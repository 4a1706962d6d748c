-- ===== src/Multicast/Order.antt =====
-- The order in which reports are passed on.
use naoto_exchange.Common.{
  ℕ, zero, suc, ◌+◌, ◌-◌, ◌%◌, ◌^◌, ◌≤◌, ◌<◌, List, [], ◌∷◌, Bool, true, false, Option, none, some,
  ◌==◌, ◌≡◌, ◌⊎◌, inl, inr, refl, ap, sym, ◌∙◌, subst, arith, if◌then◌else◌, length, Option-cases,
}
use naoto_exchange.Wire.{OrderStateReport, u32}
use native.Mathlib.Nat.{mod-mod_of_dvd, add-mod_right, pow-le-pow_right}
use Prim.Native.Nat.{◌∣◌}
use mathlib.Core.Option.{none-ne-some, some-injective}
use naoto_exchange.Queue.Fifo.{IsFifoAt, push_spec, try_push_lem}
use naoto_exchange.Queue.Window.{power-divides}
use naoto_exchange.Multicast.Ring.{RingBuffer, get_slot, valid_slot}
use naoto_exchange.Multicast.{Sizes, Receiver, hand_on, drain, drain_all}

-- Objects with consecutive sequence ids.
unfoldable pub IsRun : (ℕ → OrderStateReport) → ℕ → List ℕ → Type 0
IsRun objects s [] = Unit
IsRun objects s (a ∷ xs) = ((objects a).sequence_id ≡ s) × IsRun objects (u32 (s + 1)) xs

-- A queue of at most `n` elements after attempts to push each of the objects.
unfoldable pub push_all : ℕ → List ℕ → List ℕ → List ℕ
unfolding push_spec
push_all n [] ys = ys
push_all n (a ∷ xs) ys = push_all n xs (push_spec n a ys).1

-- What the loop leaves: it has tried to push a run of objects from the next sequence id on.
pub record Drained (z : Sizes) (r : Receiver) (ys xs : List ℕ) (r' : Receiver) : Type 0 where
  pub in_order : IsRun r.objects r.next_to_read xs
  pub next : r'.next_to_read ≡ u32 (r.next_to_read + length xs)
  pub queue : IsFifoAt z.queue r'.outgoing (push_all (2 ^ z.queue) xs ys)
  pub kept : r'.objects ≡ r.objects
  pub buffer : r'.receive_buffer ≡ r.receive_buffer

-- Nothing more to read.
abbrev pub IsEmpty : Sizes → Receiver → Type 0
IsEmpty z r = get_slot z.ring r.objects r.next_to_read r.receive_buffer ≡ none

chosen : (c : Bool) (b a : ℕ) → (if c then some b else none) ≡ some a → (c ≡ true) × (b ≡ a)
chosen true b a h = (refl, some-injective b a h)
chosen false b a h = absurd (none-ne-some a h)

valid_slot_id :
    (objects : ℕ → OrderStateReport) (s : ℕ) (o : Option ℕ) (a : ℕ)
    → valid_slot objects s o ≡ some a
    → (o ≡ some a) × ((objects a).sequence_id ≡ s)
valid_slot_id objects s none a h = absurd (none-ne-some a h)
valid_slot_id objects s (some b) a h =
    let c = chosen (s == (objects b).sequence_id) b a h in
    (ap some c.1, subst (λ d. (objects d).sequence_id ≡ s) c.1 (ground (arith, c.0)))

shifted : (n m : ℕ) → u32 (u32 (n + 1) + m) ≡ u32 (n + suc m)
shifted n m = omega arith

drain_lem :
    (fuel : ℕ) (z : Sizes)
    → z.queue ≤ 63
    → (r : Receiver) (ys : List ℕ) → IsFifoAt z.queue r.outgoing ys
    → r.next_to_read < 2 ^ 32
    → (xs : List ℕ) × Drained z r ys xs (drain fuel z r)
      × ((length xs ≡ fuel) ⊎ IsEmpty z (drain fuel z r))
unfolding drain IsRun push_all hand_on get_slot
drain_lem zero z small r ys f b = (
  [],
  record { in_order = tt; next = omega (arith, b); queue = f; kept = refl; buffer = refl },
  inl refl,
)
drain_lem (suc fuel) z small r ys f b =
    elim (Option-cases (get_slot z.ring r.objects r.next_to_read r.receive_buffer)) [
      | inl e ↦
          rw (e, drain)
            (
              [],
              record {
                in_order = tt;
                next = omega (arith, b);
                queue = f;
                kept = refl;
                buffer = refl;
              },
              inr e,
            )
      | inr (a, e) ↦
          let t = try_push_lem z.queue small a r.outgoing ys f in
          let m =
            drain_lem fuel z small (hand_on z a r) (push_spec (2 ^ z.queue) a ys).1 t.1
              (omega arith) in
          let id =
            valid_slot_id r.objects r.next_to_read
              (r.receive_buffer.buffer (r.next_to_read % 2 ^ z.ring)) a e in
          rw (e, drain)
            (
              a ∷ m.0,
              record {
                in_order = (id.1, m.1.in_order);
                next = m.1.next ∙ shifted r.next_to_read (length m.0);
                queue = m.1.queue;
                kept = m.1.kept;
                buffer = m.1.buffer;
              },
              elim m.2 [ inl l ↦ inl (ap suc l) | inr n ↦ inr n ],
            )
    ]

index_lem : (k t : ℕ) → k ≤ 32 → u32 t % 2 ^ k ≡ t % 2 ^ k
index_lem k t h =
    let e : 32 - k + k ≡ 32 = omega arith in
    mod-mod_of_dvd (2 ^ k) t (subst (λ m. 2 ^ k ∣ 2 ^ m) e (power-divides (32 - k) k))

power_le : (j k : ℕ) → j ≤ k → 2 ^ j ≤ 2 ^ k
power_le j k h = pow-le-pow_right (omega arith) h

-- After a turn for each slot, the id to read next stands at the slot of the first, which has an id
-- of its own.
came_round :
    (k : ℕ) (objects : ℕ → OrderStateReport) (s a : ℕ) (b : RingBuffer)
    → k ≤ 31
    → s < 2 ^ 32
    → get_slot k objects s b ≡ some a
    → get_slot k objects (u32 (s + 2 ^ k)) b ≡ none
unfolding get_slot
came_round k objects s a b small l e =
    let v = valid_slot_id objects s (b.buffer (s % 2 ^ k)) a e in
    let place : u32 (s + 2 ^ k) % 2 ^ k ≡ s % 2 ^ k =
      index_lem k (s + 2 ^ k) (omega arith) ∙ add-mod_right s (2 ^ k) in
    let most = power_le k 31 small in
    let least : 2 ^ 0 ≤ 2 ^ k = power_le 0 k (omega arith) in
    let apart : (u32 (s + 2 ^ k) == (objects a).sequence_id) ≡ false =
      ground (arith, v.1, most, least) in
    rw (place, v.0, apart) refl

pub drain_empty : (fuel : ℕ) (z : Sizes) (r : Receiver) → IsEmpty z r → drain fuel z r ≡ r
unfolding drain
drain_empty zero z r e = refl
drain_empty (suc fuel) z r e = rw (e, drain) refl

pub drain_all_empty : (z : Sizes) (r : Receiver) → IsEmpty z r → drain_all z r ≡ r
unfolding drain_all
drain_all_empty z r e = drain_empty (2 ^ z.ring) z r e

last_turn :
    (z : Sizes) (r : Receiver) (ys : List ℕ) (a : ℕ) (r' : Receiver)
    → z.ring ≤ 31
    → r.next_to_read < 2 ^ 32
    → get_slot z.ring r.objects r.next_to_read r.receive_buffer ≡ some a
    → (xs : List ℕ) → length xs ≡ 2 ^ z.ring
    → Drained z r ys xs r'
    → IsEmpty z r'
last_turn z r ys a r' small l e xs n d =
    rw (d.kept, d.buffer, d.next, n)
      (came_round z.ring r.objects r.next_to_read a r.receive_buffer small l e)

-- With a buffer of at most 2 ^ 31 slots and a queue of at most 2 ^ 63 places, the loop that empties the
-- buffer ends within a turn for each slot, and then nothing more can be read. It has tried to push
-- objects with consecutive sequence ids, from the next one on, in their order, and has left the
-- buffer and the objects as they were.
pub drain_all_lem :
    (z : Sizes) (r : Receiver) (ys : List ℕ)
    → z.ring ≤ 31
    → z.queue ≤ 63
    → r.next_to_read < 2 ^ 32
    → IsFifoAt z.queue r.outgoing ys
    → (xs : List ℕ) × Drained z r ys xs (drain_all z r) × IsEmpty z (drain_all z r)
unfolding drain_all
drain_all_lem z r ys small wide l f =
    let m = drain_lem (2 ^ z.ring) z wide r ys f l in
    elim (Option-cases (get_slot z.ring r.objects r.next_to_read r.receive_buffer)) [
      | inl e ↦ let d = drain_empty (2 ^ z.ring) z r e in (m.0, m.1, subst (IsEmpty z) (sym d) e)
      | inr (a, e) ↦ elim m.2 [
        | inl n ↦ (m.0, m.1, last_turn z r ys a (drain (2 ^ z.ring) z r) small l e m.0 n m.1)
        | inr n ↦ (m.0, m.1, n)
      ]
    ]
