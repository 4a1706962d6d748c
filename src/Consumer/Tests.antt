-- ===== src/Consumer/Tests.antt =====
-- A consumer that collects what it handles, and the theorems at it: both objects of the pool are out,
-- one of them in the queue.
use naoto_exchange.Common.{take, drop, ℕ, List, [], ◌∷◌, ◌++◌, ◌≡◌, some, none, refl, arith}
use naoto_exchange.Pool.Owned.{count}
use naoto_exchange.Queue.{SpscQueue, new_queue, try_push, try_pop, read, write, sub_u64}
use naoto_exchange.Queue.Fifo.{push_spec, try_push_lem, new_queue-IsFifo}
use naoto_exchange.Mempool.{StoragePool, new_pool, fill, acquire}
use naoto_exchange.Mempool.Operations.{IsUsed, start, acquired}
use naoto_exchange.Consumer.{Consumer, try_consume}
use naoto_exchange.Consumer.Batches.{IsFed, Consumed, handle_some, try_consume_lem}

abbrev empty : SpscQueue ℕ
empty = new_queue (λ i. 9)

abbrev pool : StoragePool
pool = record {
  free = (try_push 1 1 (try_push 1 0 empty).1).1;
  local_reuse_buffer = λ i. none;
  local_reuse_size = 0;
}

pool_is_new : new_pool 1 (λ i. 9) ≡ some pool
unfolding new_pool fill try_push write sub_u64
pool_is_new = refl

abbrev used : StoragePool
used = (acquire 1 (acquire 1 pool).1).1

used-IsUsed : IsUsed 1 used (1 ∷ 0 ∷ [])
unfolding acquire try_pop read try_push write sub_u64
used-IsUsed =
    acquired (acquire 1 pool).1 (0 ∷ []) 1
      (acquired pool [] 0 (start (λ i. 9) pool pool_is_new) refl) refl

abbrev consumer : Consumer (List ℕ)
consumer = record { incoming = (try_push 1 0 empty).1; mempool = used; derived = [] }

consumer-IsFed : IsFed 1 1 consumer (0 ∷ []) (1 ∷ 0 ∷ [])
unfolding push_spec count
consumer-IsFed = record {
  queue = (try_push_lem 1 (omega arith) 0 empty [] (new_queue-IsFifo 1 (λ i. 9))).1;
  pool = used-IsUsed;
  in_use = λ a. omega arith;
}

try_consume_lem_example :
    Consumed 1 1
      (drop 3 (0 ∷ []))
      (1 ∷ 0 ∷ [])
      (take 3 (0 ∷ []))
      (handle_some (λ batch s. s ++ batch) (take 3 (0 ∷ [])) [])
      (try_consume 1 1 3 (λ batch s. s ++ batch) consumer)
try_consume_lem_example =
    try_consume_lem 1 1 (omega arith) (omega arith) (λ batch s. s ++ batch) 3 consumer (0 ∷ [])
      (1 ∷ 0 ∷ []) consumer-IsFed
