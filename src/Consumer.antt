-- ===== src/Consumer.antt =====
-- market_server/common/include/consumer.hpp: the thread that takes objects off a queue, handles them
-- and returns them to their pool. The handler is a parameter, a function on its own state.
pub mod Batches
mod Tests
use naoto_exchange.Common.{
  ℕ, zero, suc, List, [], ◌∷◌, Bool, true, false, Option, none, some, if◌then◌else◌,
}
use naoto_exchange.Queue.{SpscQueue, try_pop}
use naoto_exchange.Mempool.{StoragePool, release}

-- The queue has 2 ^ k places, the pool 2 ^ j objects; an object is its index.
pub record Consumer {ℓ} (S : Type ℓ) : Type ℓ where
  pub incoming : SpscQueue ℕ
  pub mempool : StoragePool
  pub derived : S

-- The loop of `TryConsume` that fills `Buffer`, with the places left in it.
unfoldable pub fill_buffer : ℕ → ℕ → SpscQueue ℕ → List ℕ × SpscQueue ℕ
unfolding try_pop
fill_buffer k zero q = ([], q)
fill_buffer k (suc left) q =
    let popped = try_pop k q in
    let rest = fill_buffer k left popped.1 in
    elim popped.0 [ none ↦ ([], popped.1) | some a ↦ (a ∷ rest.0, rest.1) ]

-- The loop that frees the elements of the batch: `none` where the program ends.
unfoldable pub free_elements : ℕ → List ℕ → StoragePool → Option StoragePool
unfolding release
free_elements j [] p = some p
free_elements j (a ∷ batch) p =
    let released = release j (some a) p in
    let rest = free_elements j batch released.1 in if released.0 then rest else none

abbrev pub handled {ℓ} : {S : Type ℓ} → Consumer S → S → Option StoragePool → Option (Consumer S)
handled c s none = none
handled c s (some p) = some (record c { derived = s; mempool = p })

abbrev pub consume_batch {ℓ} :
    {S : Type ℓ} → ℕ → (List ℕ → S → S) → List ℕ → Consumer S → Option (Consumer S)
consume_batch j handle [] c = some c
consume_batch j handle (a ∷ batch) c =
    handled c (handle (a ∷ batch) c.derived) (free_elements j (a ∷ batch) c.mempool)

-- `TryConsume` with batches of a size above 0.
unfoldable pub try_consume {ℓ} :
    {S : Type ℓ} → ℕ → ℕ → ℕ → (List ℕ → S → S) → Consumer S → Option (Consumer S)
unfolding fill_buffer free_elements
try_consume k j batch_size handle c =
    let filled = fill_buffer k batch_size c.incoming in
    consume_batch j handle filled.0 (record c { incoming = filled.1 })

-- `TryConsume` without batches.
unfoldable pub try_consume_one {ℓ} :
    {S : Type ℓ} → ℕ → ℕ → (ℕ → S → S) → Consumer S → Option (Consumer S)
unfolding try_pop free_elements
try_consume_one k j handle c =
    let popped = try_pop k c.incoming in
    let rest = record c { incoming = popped.1 } in
    elim popped.0 [
      | none ↦ some rest
      | some a ↦ handled rest (handle a c.derived) (free_elements j (a ∷ []) c.mempool)
    ]
