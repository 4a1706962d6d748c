-- ===== src/Multicast/Ring.antt =====
-- market_server/common/include/sequence_ring_buffer.hpp: objects by their sequence ids. An object is
-- its index in the pool's storage, and its sequence id is read there.
use naoto_exchange.Common.{
  ℕ, ◌+◌, ◌-◌, ◌%◌, ◌^◌, Bool, true, false, Option, none, some, ◌==◌, ◌&&◌, ltb, leb, if◌then◌else◌,
  update,
}
use naoto_exchange.Wire.{OrderStateReport, u32}

-- `Size` is 2 ^ k, so that `& (Size - 1)` is a remainder. `buffer` is a function of the index.
pub record RingBuffer : Type 0 where
  pub buffer : ℕ → Option ℕ
  pub tail : ℕ

-- The constructor.
abbrev pub new_ring : RingBuffer
new_ring = record { buffer = λ i. none; tail = 0 }

abbrev pub valid_slot : (ℕ → OrderStateReport) → ℕ → Option ℕ → Option ℕ
valid_slot objects s none = none
valid_slot objects s (some a) = if s == (objects a).sequence_id then some a else none

-- `GetSlot`
unfoldable pub get_slot : ℕ → (ℕ → OrderStateReport) → ℕ → RingBuffer → Option ℕ
get_slot k objects s r = valid_slot objects s (r.buffer (s % 2 ^ k))

-- The check of `AddSlot`.
abbrev pub is_too_old : ℕ → ℕ → RingBuffer → Bool
is_too_old k s r = ltb (2 ^ k) r.tail && ltb s (r.tail - 2 ^ k)

-- `AddSlot`
unfoldable pub add_slot : ℕ → (ℕ → OrderStateReport) → ℕ → RingBuffer → Bool × RingBuffer
unfolding update
add_slot k objects a r =
    let s = (objects a).sequence_id in
    if is_too_old k s r then (false, r) else (
      true,
      record {
        buffer = update (s % 2 ^ k) (some a) r.buffer;
        tail = if leb r.tail s then u32 (s + 1) else r.tail;
      },
    )
