-- ===== src/Queue.antt =====
-- market_server/common/include/spsc_queue.hpp: the queue of one producer and one consumer. The two
-- sides run operation by operation, in any order; each keeps a copy of the other's counter, which it
-- reads anew only when the copy says that the queue is full or empty.
pub mod Window
pub mod Counters
pub mod Fifo
pub mod Runs
mod Tests
use naoto_exchange.Common.{
  update, ℕ, suc, ◌+◌, ◌-◌, ◌%◌, ◌^◌, List, [], ◌∷◌, Bool, true, false, Option, none, some, ◌==◌,
  if◌then◌else◌, leb,
}
use naoto_exchange.Wire.{u64}

-- `Head`, `Tail` and `Buffer`, and `LocalHead` and `LocalTail` of the two handles. The buffer is a
-- function of the index.
pub record SpscQueue {ℓ} (A : Type ℓ) : Type ℓ where
  pub head : ℕ
  pub tail : ℕ
  pub buffer : ℕ → A
  pub producer_head : ℕ
  pub producer_tail : ℕ
  pub consumer_head : ℕ
  pub consumer_tail : ℕ

-- The constructors. The buffer's contents are whatever they are.
abbrev pub new_queue {ℓ} : {A : Type ℓ} → (ℕ → A) → SpscQueue A
new_queue buffer = record {
  head = 0;
  tail = 0;
  buffer = buffer;
  producer_head = 0;
  producer_tail = 0;
  consumer_head = 0;
  consumer_tail = 0;
}

-- Subtraction on `size_t`, where a ≥ 2^64 does not occur.
unfoldable pub sub_u64 : ℕ → ℕ → ℕ
sub_u64 a b = (a + 2 ^ 64 - b) % 2 ^ 64

-- `GetSize`
unfoldable pub get_size {ℓ} : {A : Type ℓ} → SpscQueue A → ℕ
unfolding sub_u64
get_size q = sub_u64 q.tail q.head

-- The write and the new tail of `TryPush`. The size is 2 ^ k, so that `& (Size - 1)` is a remainder.
unfoldable pub write {ℓ} : {A : Type ℓ} → ℕ → A → SpscQueue A → SpscQueue A
unfolding update
write k item q =
    let tail = u64 (q.producer_tail + 1) in
    record q {
      buffer = update (q.producer_tail % 2 ^ k) item q.buffer;
      producer_tail = tail;
      tail = tail;
    }

-- `TryPush`
unfoldable pub try_push {ℓ} : {A : Type ℓ} → ℕ → A → SpscQueue A → Bool × SpscQueue A
unfolding sub_u64 write
try_push k item q =
    if leb (2 ^ k) (sub_u64 q.producer_tail q.producer_head)
    then (let fresh = record q { producer_head = q.head } in
        if leb (2 ^ k) (sub_u64 q.producer_tail q.head)
        then (false, fresh)
        else (true, write k item fresh))
    else (true, write k item q)

-- The read and the new head of `TryPop`.
unfoldable pub read {ℓ} : {A : Type ℓ} → ℕ → SpscQueue A → A × SpscQueue A
read k q =
    let head = u64 (q.consumer_head + 1) in
    (q.buffer (q.consumer_head % 2 ^ k), record q { consumer_head = head; head = head })

abbrev some_item {ℓ} : {A : Type ℓ} → A × SpscQueue A → Option A × SpscQueue A
some_item r = (some r.0, r.1)

-- `TryPop`
unfoldable pub try_pop {ℓ} : {A : Type ℓ} → ℕ → SpscQueue A → Option A × SpscQueue A
unfolding read
try_pop k q =
    if q.consumer_tail == q.consumer_head
    then (let fresh = record q { consumer_tail = q.tail } in
        if q.tail == q.consumer_head then (none, fresh) else some_item (read k fresh))
    else some_item (read k q)
