-- ===== src/Mempool.antt =====
-- market_server/common/include/storage_pool.hpp: the pool of one thread that acquires and one that
-- releases, over a queue of free objects. A pointer to an object is its index in `Storage`.
pub mod Operations
pub mod Fresh
pub mod Owned
mod Tests
use naoto_exchange.Common.{
  ℕ, zero, suc, ◌+◌, ◌^◌, Bool, true, false, Option, none, some, update, ltb, ◌==◌, ◌&&◌, ◌||◌, not,
  if◌then◌else◌, List, [], ◌∷◌, ◌++◌,
}
use naoto_exchange.Queue.{SpscQueue, new_queue, get_size, try_push, try_pop}

-- `LocalReuseBuffer` is a function of the index. `Size` is 2 ^ k, an argument of the operations.
pub record StoragePool : Type 0 where
  pub free : SpscQueue ℕ
  pub local_reuse_buffer : ℕ → Option ℕ
  pub local_reuse_size : ℕ

-- The loop of the constructor from an object on; `none` where it throws.
unfoldable pub fill : ℕ → ℕ → ℕ → SpscQueue ℕ → Option (SpscQueue ℕ)
unfolding try_push
fill k first zero q = some q
fill k first (suc left) q =
    let pushed = try_push k first q in
    let rest = fill k (suc first) left pushed.1 in if pushed.0 then rest else none

abbrev made : Option (SpscQueue ℕ) → Option StoragePool
made none = none
made (some q) = some (record { free = q; local_reuse_buffer = λ i. none; local_reuse_size = 0 })

-- The constructor; the places of `Free` hold anything at first.
unfoldable pub new_pool : ℕ → (ℕ → ℕ) → Option StoragePool
unfolding fill
new_pool k places = made (fill k 0 (2 ^ k) (new_queue places))

abbrev with_free : StoragePool → Option ℕ × SpscQueue ℕ → Option ℕ × StoragePool
with_free p r = (r.0, record p { free = r.1 })

abbrev pub acquire_from : ℕ → ℕ → StoragePool → Option ℕ × StoragePool
acquire_from k zero p = with_free p (try_pop k p.free)
acquire_from k (suc n) p = (p.local_reuse_buffer n, record p { local_reuse_size = n })

-- `Acquire`
unfoldable pub acquire : ℕ → StoragePool → Option ℕ × StoragePool
unfolding try_pop
acquire k p = acquire_from k p.local_reuse_size p

-- `LocalRelease`
unfoldable pub local_release : ℕ → ℕ → StoragePool → Bool × StoragePool
unfolding update
local_release k a p =
    if ltb p.local_reuse_size (2 ^ k)
    then (
      true,
      record p {
        local_reuse_buffer = update p.local_reuse_size (some a) p.local_reuse_buffer;
        local_reuse_size = suc p.local_reuse_size;
      },
    )
    else (false, p)

-- `GetAvailable`
unfoldable pub get_available : StoragePool → Bool
unfolding get_size
get_available p = ltb 0 p.local_reuse_size || not (get_size p.free == 0)

-- `Release`, of a null pointer or of an object.
unfoldable pub release : ℕ → Option ℕ → StoragePool → Bool × StoragePool
unfolding try_push
release k none p = (false, p)
release k (some a) p = let pushed = try_push k a p.free in (pushed.0, record p { free = pushed.1 })

-- `ReleaseCritical`: `none` where the program ends.
unfoldable pub release_critical : ℕ → Option ℕ → StoragePool → Option StoragePool
unfolding release
release_critical k a p = let r = release k a p in if r.0 then some r.1 else none
