-- ===== src/Mempool/Tests.antt =====
-- A pool of two objects, and the theorems at it.
use naoto_exchange.Common.{◌<◌, [], ◌∷◌, ◌≡◌, true, some, none, refl, arith}
use naoto_exchange.Pool.Owned.{count}
use naoto_exchange.Queue.{new_queue, try_pop, try_push, read, write, sub_u64}
use naoto_exchange.Mempool.{StoragePool, new_pool, fill, acquire, local_release, release}
use naoto_exchange.Mempool.Owned.{IsUsed-IsOwned, acquire_lem, releases_succeed}
use naoto_exchange.Mempool.Fresh.{new_pool-IsOwned}
use naoto_exchange.Mempool.Operations.{IsUsed, start, acquired, IsOwned, AcquiredFrom}

abbrev pool : StoragePool
pool = record {
  free = (try_push 1 1 (try_push 1 0 (new_queue (λ i. 9))).1).1;
  local_reuse_buffer = λ i. none;
  local_reuse_size = 0;
}

pool_is_new : new_pool 1 (λ i. 9) ≡ some pool
unfolding new_pool fill try_push write sub_u64
pool_is_new = refl

-- One object is acquired.
abbrev used : StoragePool
used = (acquire 1 pool).1

first : (acquire 1 pool).0 ≡ some 0
unfolding acquire try_pop read try_push write sub_u64
first = refl

used-IsUsed : IsUsed 1 used (0 ∷ [])
used-IsUsed = acquired pool [] 0 (start (λ i. 9) pool pool_is_new) first

one : 0 < count 0 (0 ∷ [])
unfolding count
one = omega arith

IsUsed-IsOwned_example : IsOwned 1 used (0 ∷ [])
IsUsed-IsOwned_example = IsUsed-IsOwned 1 (omega arith) used (0 ∷ []) used-IsUsed

acquire_lem_example : AcquiredFrom 1 (0 ∷ []) (acquire 1 used)
acquire_lem_example = acquire_lem 1 (omega arith) used (0 ∷ []) used-IsUsed

releases_succeed_example :
    ((release 1 (some 0) used).0 ≡ true) × ((local_release 1 0 used).0 ≡ true)
releases_succeed_example = releases_succeed 1 (omega arith) used (0 ∷ []) 0 used-IsUsed one

new_pool-IsOwned_example : (p : StoragePool) × (new_pool 1 (λ i. 9) ≡ some p) × IsOwned 1 p []
new_pool-IsOwned_example = new_pool-IsOwned 1 (omega arith) (λ i. 9)
