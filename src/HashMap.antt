-- ===== src/HashMap.antt =====
-- market_server/common/include/flat_hash_map.hpp: `FlatHashMap` as the list of its keys and
-- values, which is how the components see it. `Table` and `Update` have the slots themselves.
pub mod Table
pub mod Update
pub mod Buckets
pub mod Rows
pub mod Lookup
pub mod Writes
pub mod HomeLoop
pub mod Insert
pub mod Find
pub mod Shift
pub mod Delete
pub mod Refines
mod Tests
use naoto_exchange.Common.{ℕ, List, [], ◌∷◌, Option, none, some, ◌==◌, if◌then◌else◌}

-- `GetVal`
unfoldable pub get_val : ℕ → List (ℕ × ℕ) → Option ℕ
get_val k [] = none
get_val k ((j, a) ∷ m) = if k == j then some a else get_val k m

-- `AddNode`: a key that is there keeps its value.
unfoldable pub add_node : ℕ → ℕ → List (ℕ × ℕ) → List (ℕ × ℕ)
unfolding get_val
add_node k a m = elim (get_val k m) [ some b ↦ m | none ↦ (k, a) ∷ m ]

-- `DeleteNode`
unfoldable pub delete_node : ℕ → List (ℕ × ℕ) → List (ℕ × ℕ)
delete_node k [] = []
delete_node k (e ∷ m) = if k == e.0 then m else e ∷ delete_node k m
