-- ===== src/Pool.antt =====
-- market_server/common/include/single_threaded_storage_pool.hpp: a fixed number of objects and the
-- array of those that are free. A pointer to an object is its index in `Storage`.
pub mod Owned
mod Tests
use naoto_exchange.Common.{
  ℕ, zero, suc, Bool, true, false, Option, none, some, update, ltb, if◌then◌else◌,
}

pub record StoragePool : Type 0 where
  pub size : ℕ
  pub free_queue : ℕ → ℕ
  pub free_size : ℕ

-- The constructor: every object is free.
abbrev pub new_pool : ℕ → StoragePool
new_pool size = record { size = size; free_queue = λ i. i; free_size = size }

abbrev pub take : ℕ → StoragePool → Option ℕ × StoragePool
take zero p = (none, p)
take (suc n) p = (some (p.free_queue n), record p { free_size = n })

-- `Acquire`
unfoldable pub acquire : StoragePool → Option ℕ × StoragePool
acquire p = take p.free_size p

-- `Release`, of a null pointer or of an object.
unfoldable pub release : Option ℕ → StoragePool → Bool × StoragePool
unfolding update
release none p = (false, p)
release (some a) p =
    if ltb p.free_size p.size
    then (
      true,
      record p { free_queue = update p.free_size a p.free_queue; free_size = suc p.free_size },
    )
    else (false, p)
