-- ===== src/Matching/Level.antt =====
-- market_server/matching_engine/include/price_level.hpp and order_node.hpp. The doubly linked list
-- from `Head` to `Tail` is the list of its nodes in that order; `Size` is the list's length. A node
-- is known by its address in the node pool.
use naoto_exchange.Common.{
  ℕ, ◌+◌, ◌-◌, ◌^◌, List, [], ◌∷◌, ◌++◌, Option, none, some, Bool, true, false, ◌==◌, if◌then◌else◌,
  ℤ,
}
use naoto_exchange.Wire.{Order, u32, u64}

pub record OrderNode : Type 0 where
  pub addr : ℕ
  pub order : Order

-- `OrderNode::GetId` narrows the 64-bit id.
abbrev pub get_id : OrderNode → ℕ
get_id n = u32 n.order.order_id

abbrev pub set_amount : ℕ → OrderNode → OrderNode
set_amount a n = record n { order = record (n.order) { amount = a } }

pub record PriceLevel : Type 0 where
  pub price : ℤ
  pub total_amount : ℕ
  pub orders : List OrderNode

-- `ClearPriceLevel` and `SetPrice` on a level that leaves the pool.
abbrev pub new_level : ℤ → PriceLevel
new_level p = record { price = p; total_amount = 0; orders = [] }

unfoldable pub add_order : OrderNode → PriceLevel → PriceLevel
add_order n l = record l {
  total_amount = u64 (l.total_amount + n.order.amount);
  orders = l.orders ++ n ∷ [];
}

-- Unlinks the node at an address.
unfoldable pub unlink : ℕ → List OrderNode → List OrderNode
unlink a [] = []
unlink a (n ∷ ns) = if a == n.addr then ns else n ∷ unlink a ns

-- `DeleteOrder`, without its result `Size == 0`, which is `is_empty` of the new level.
unfoldable pub delete_order : OrderNode → PriceLevel → PriceLevel
unfolding unlink
delete_order n l = record l {
  total_amount = u64 (l.total_amount + 2 ^ 64 - n.order.amount);
  orders = unlink n.addr l.orders;
}

abbrev pub is_empty : PriceLevel → Bool
is_empty l = elim l.orders [ [] ↦ true | n ∷ ns ↦ false ]

-- `PeekOrder`
abbrev pub peek_order : PriceLevel → Option OrderNode
peek_order l = elim l.orders [ [] ↦ none | n ∷ ns ↦ some n ]

-- `IncTotalAmount(-tradedAmount)`: the minus is taken in `uint32_t`, so what is added to the 64-bit
-- total is `2 ^ 32 - traded`.
unfoldable pub dec_total_amount : ℕ → PriceLevel → PriceLevel
dec_total_amount traded l = record l { total_amount = u64 (l.total_amount + u32 (2 ^ 32 - traded)) }
