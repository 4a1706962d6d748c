-- ===== src/Matching/Book.antt =====
-- market_server/matching_engine/include/order_book.hpp. One side of the book is the list of its
-- price levels in the order of `BestPricesMap`, best first; `FastMap` finds a level of that list by
-- its price. The levels' pool is the number of its free objects.
pub mod Sorted
use naoto_exchange.Common.{
  ℕ, zero, suc, List, [], ◌∷◌, Option, none, some, Bool, if◌then◌else◌, ◌||◌, ℤ, pos, negsuc, ltb_ℤ,
  eqb_ℤ,
}
use naoto_exchange.Wire.{OrderSide, buy, sell}
use naoto_exchange.Matching.Level.{
  OrderNode, PriceLevel, new_level, add_order, delete_order, is_empty,
}

abbrev pub Book : Type 0
Book = List PriceLevel

-- `Compare`: std::greater for the bids and std::less for the asks.
abbrev pub before : OrderSide → ℤ → ℤ → Bool
before buy a b = ltb_ℤ b a
before sell a b = ltb_ℤ a b

-- `FastMap.GetVal`
unfoldable pub get_level : ℤ → Book → Option PriceLevel
get_level p [] = none
get_level p (l ∷ ls) = if eqb_ℤ l.price p then some l else get_level p ls

-- The level at a price changes in place.
unfoldable pub set_level : ℤ → PriceLevel → Book → Book
set_level p l [] = []
set_level p l (k ∷ ls) = if eqb_ℤ k.price p then l ∷ ls else k ∷ set_level p l ls

-- The keys of the skip list's `Tail` and `Head`.
abbrev pub tail_key : OrderSide → ℤ
tail_key buy = negsuc 9223372036854775807
tail_key sell = pos 9223372036854775807

abbrev pub head_key : OrderSide → ℤ
head_key buy = pos 9223372036854775807
head_key sell = negsuc 9223372036854775807

-- `BestPricesMap.AddNode` for a price that is not the key of its head or tail: before the first level that comes after the price.
unfoldable pub insert_level : OrderSide → PriceLevel → Book → Book
insert_level s l [] = l ∷ []
insert_level s l (k ∷ ls) = if before s l.price k.price then l ∷ k ∷ ls else k ∷ insert_level s l ls

-- `FastMap.DeleteNode` and `BestPricesMap.DeleteNode`.
unfoldable pub remove_level : ℤ → Book → Book
remove_level p [] = []
remove_level p (k ∷ ls) = if eqb_ℤ k.price p then ls else k ∷ remove_level p ls

pub record Added : Type 0 where
  pub book : Book
  pub free : ℕ
  pub level : PriceLevel

-- `AddLimitOrder`. `none` is where there is no new level: the pool of levels is empty, or the price is
-- a key of the skip list's ends, where the list follows the null pointer behind its tail, or takes its
-- head for the level and adds nothing.
unfoldable pub add_limit_order : OrderSide → OrderNode → ℕ → Book → Option Added
unfolding get_level set_level insert_level add_order
add_limit_order s n free b = elim (get_level n.order.price b) [
  | some l ↦
      let l' = add_order n l in
      some (record { book = set_level n.order.price l' b; free = free; level = l' })
  | none ↦
      let l' = add_order n (new_level n.order.price) in
      elim free [
        | zero ↦ none
        | suc f ↦
            if eqb_ℤ n.order.price (tail_key s) || eqb_ℤ n.order.price (head_key s)
            then none
            else some (record { book = insert_level s l' b; free = f; level = l' })
      ]
]

pub record Deleted : Type 0 where
  pub book : Book
  pub free : ℕ
  pub level : Option PriceLevel

-- `DeleteOrder`, but for the order map and the node pool, which the engine keeps. The level is null
-- where no level has the price, or the order was its last.
unfoldable pub delete_limit_order : OrderNode → ℕ → Book → Deleted
unfolding get_level set_level remove_level delete_order
delete_limit_order n free b = elim (get_level n.order.price b) [
  | none ↦ record { book = b; free = free; level = none }
  | some l ↦
      let l' = delete_order n l in
      if is_empty l'
      then record { book = remove_level n.order.price b; free = suc free; level = none }
      else record { book = set_level n.order.price l' b; free = free; level = some l' }
]
