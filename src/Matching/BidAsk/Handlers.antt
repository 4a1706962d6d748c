-- ===== src/Matching/BidAsk/Handlers.antt =====
-- The handlers of bid_ask.hpp: what an incoming order does to the engine, and the batch loop.
use naoto_exchange.Common.{
  ℕ, zero, suc, eqb_ℤ, List, [], ◌∷◌, Option, none, some, ◌==◌, ◌||◌, if◌then◌else◌, ℤ, pos, neg,
  ◌*ℤ◌, ltb, ltb_ℤ,
}
use naoto_exchange.Wire.{
  Order, OrderSide, OrderAction, OrderState, limit, market, buy, sell, execute, opposite,
}
use naoto_exchange.Matching.Level.{OrderNode, PriceLevel, get_id}
use naoto_exchange.Matching.Book
use naoto_exchange.Matching.Book.{Book}
use naoto_exchange.Matching.BidAsk.{
  BidAsk, is_marketable, emit_report, await_room, await_book_room, emit_update,
}
use naoto_exchange.HashMap.{get_val, add_node, delete_node}
use naoto_exchange.Matching.BidAsk.Fill.{Filling, fill_levels, bought_asset, sold_asset}

-- How a handler ends. `terminated` is the end of the process, by std::terminate or a null pointer. `corrupted` is where the code
-- goes on with books that are none: after a cancel whose side is not that of the order's book, which
-- unlinks the node from, or frees it behind, another list; and after an order that rests in a level that the
-- skip list does not have.
pub data Outcome : Type 0 where
  done : BidAsk → Outcome
  terminated corrupted : Outcome

infixl 5 ◌>>=◌
abbrev pub ◌>>=◌ : Outcome → (BidAsk → Outcome) → Outcome
done e >>= f = f e
terminated >>= f = terminated
corrupted >>= f = corrupted

abbrev pub book_of : OrderSide → BidAsk → Book
book_of buy e = e.bid
book_of sell e = e.ask

abbrev pub set_book : OrderSide → Book → BidAsk → BidAsk
set_book buy b e = record e { bid = b }
set_book sell b e = record e { ask = b }

-- What a resting order locks: cash for a buyer, the asset for a seller.
unfoldable pub locked_by : OrderSide → ℕ → ℤ → ℤ
locked_by buy amount price = amount *ℤ price
locked_by sell amount price = pos amount

-- `std::max(BestBidPrice, order.Price)` for a bid, `std::min(BestAskPrice, order.Price)` for an ask.
abbrev pub max_ℤ : ℤ → ℤ → ℤ
max_ℤ a b = if ltb_ℤ a b then b else a

abbrev pub min_ℤ : ℤ → ℤ → ℤ
min_ℤ a b = if ltb_ℤ b a then b else a

unfoldable pub improve_best_price : OrderSide → ℤ → BidAsk → BidAsk
improve_best_price buy p e = record e { best_bid_price = max_ℤ e.best_bid_price p }
improve_best_price sell p e = record e { best_ask_price = min_ℤ e.best_ask_price p }

-- The report and the book update of an order that has been added.
unfoldable pub announce_added : OrderSide → Order → PriceLevel → BidAsk → BidAsk
unfolding emit_report emit_update locked_by
announce_added s o level e = emit_update level.total_amount level.price s (
    emit_report (pos 0) (pos 0) (locked_by s o.amount o.price) o.client_id o.order_id
      (bought_asset s e.market_asset_id) (sold_asset s e.market_asset_id) OrderState.add e)

-- The engine once the book has taken the order's node.
unfoldable pub place : OrderSide → OrderNode → Book.Added → BidAsk → BidAsk
unfolding improve_best_price add_node announce_added
place s n added e = announce_added s n.order added.level (
    set_book s added.book (record (improve_best_price s n.order.price e) {
      order_map = add_node (get_id n) n.addr e.order_map;
      level_pool = added.free;
    }))

-- Without a new level the process ends, but at the key of the head the level is only in the hash map.
unfoldable pub no_level : OrderSide → ℤ → ℕ → Outcome
no_level s p zero = terminated
no_level s p (suc free) = if eqb_ℤ p (Book.head_key s) then corrupted else terminated

-- `AddBuyLimitOrder` and `AddSellLimitOrder`, once a node is at hand.
unfoldable pub add_node_order : OrderSide → OrderNode → BidAsk → Outcome
unfolding no_level
add_node_order s n e = elim (Book.add_limit_order s n e.level_pool (book_of s e)) [
  | none ↦ no_level s n.order.price e.level_pool
  | some added ↦ done (place s n added e)
]

-- `OrderNodePool.Acquire` from the free addresses: where there is none, the order is dropped without
-- a report.
unfoldable pub acquire_and_add : List ℕ → OrderSide → Order → BidAsk → Outcome
acquire_and_add [] s o e = done e
acquire_and_add (a ∷ free) s o e =
    add_node_order s (record { addr = a; order = o }) (record e { node_pool = free })

unfoldable pub add_limit_order : OrderSide → Order → BidAsk → Outcome
add_limit_order s o e = acquire_and_add e.node_pool s o e

abbrev pub add_buy_limit_order : Order → BidAsk → Outcome
add_buy_limit_order = add_limit_order buy

abbrev pub add_sell_limit_order : Order → BidAsk → Outcome
add_sell_limit_order = add_limit_order sell

-- The report that gives back what a market order did not use.
unfoldable pub cancel_rest : OrderSide → Filling → BidAsk → BidAsk
unfolding emit_report await_room
cancel_rest s f e =
    emit_report (pos 0) (pos 0) (neg f.total_locked) f.order.client_id f.order.order_id
      (bought_asset s e.market_asset_id) (sold_asset s e.market_asset_id) OrderState.cancel
      (await_room e)

-- What follows the loops of `FillBuyOrder` and `FillSellOrder`.
unfoldable pub finish : OrderSide → Filling → BidAsk → Outcome
finish s f e =
    if ltb 0 f.order.amount
    then (elim f.order.order_type [
      | limit ↦ add_limit_order s f.order e
      | market ↦ done (cancel_rest s f e)
    ])
    else done e

abbrev pub start_filling : OrderSide → Order → BidAsk → Filling
start_filling s o e = record { order = o; total_locked = locked_by s o.amount o.price; engine = e }

unfoldable pub fill_order : OrderSide → Order → BidAsk → Outcome
fill_order s o e =
    let (book, f) = fill_levels s (book_of (opposite s) e) (start_filling s o e) in
    finish s f (set_book (opposite s) book f.engine)

abbrev pub fill_buy_order : Order → BidAsk → Outcome
fill_buy_order = fill_order buy

abbrev pub fill_sell_order : Order → BidAsk → Outcome
fill_sell_order = fill_order sell

-- `executeOrder`, with `ExecuteMarketableOrder` and `AddLimitOrder`.
unfoldable pub execute_order : Order → BidAsk → Outcome
execute_order o e = if is_marketable e o then fill_order o.side o e else add_limit_order o.side o e

-- The node at an address, if it is linked in a book.
unfoldable pub find_order : ℕ → List OrderNode → Option OrderNode
find_order a [] = none
find_order a (n ∷ ns) = if a == n.addr then some n else find_order a ns

unfoldable pub find_node : ℕ → Book → Option OrderNode
unfolding find_order
find_node a [] = none
find_node a (l ∷ ls) = elim (find_order a l.orders) [ some n ↦ some n | none ↦ find_node a ls ]

unfoldable pub reject_cancel : Order → BidAsk → BidAsk
unfolding emit_report
reject_cancel o e =
    emit_report (pos 0) (pos 0) (pos 0) o.client_id o.order_id 0 0 OrderState.reject e

abbrev pub depth_of : Option PriceLevel → ℕ
depth_of none = 0
depth_of (some l) = l.total_amount

-- The node is in the book of the side: it is reported, taken off the map and the book, and freed.
unfoldable pub cancel_node : OrderSide → OrderNode → BidAsk → BidAsk
unfolding emit_report await_room await_book_room emit_update delete_node locked_by
    Book.delete_limit_order
cancel_node s n e =
    let reported =
      emit_report (pos 0) (pos 0) (locked_by s n.order.amount n.order.price) n.order.client_id
        (get_id n) (bought_asset s e.market_asset_id) (sold_asset s e.market_asset_id)
        OrderState.cancel (await_room e) in
    let deleted = Book.delete_limit_order n e.level_pool (book_of s e) in
    emit_update (depth_of deleted.level) n.order.price s (
      await_book_room (
        set_book s deleted.book (record reported {
          order_map = delete_node (get_id n) reported.order_map;
          level_pool = deleted.free;
          node_pool = n.addr ∷ reported.node_pool;
        })))

-- `CancelOrder<side>`: `order.Amount` is the id of the order to cancel.
unfoldable pub cancel_order : OrderSide → Order → BidAsk → Outcome
cancel_order s o e = elim (get_val o.amount e.order_map) [
  | none ↦ done (reject_cancel o e)
  | some a ↦ elim (find_node a (book_of s e)) [
    | some n ↦
        if n.order.client_id == o.client_id
        then done (cancel_node s n e)
        else done (reject_cancel o e)
    | none ↦ elim (find_node a (book_of (opposite s) e)) [
      | some n ↦ if n.order.client_id == o.client_id then corrupted else done (reject_cancel o e)
      | none ↦ corrupted
    ]
  ]
]

-- The body of `MarketExecutionLoop` for one order.
unfoldable pub handle : Order → BidAsk → Outcome
handle o e = elim o.action [
  | execute ↦ execute_order o e
  | OrderAction.cancel ↦ cancel_order o.side o e
]

-- Where an object was written through a null pointer, the process has ended.
unfoldable pub alive : BidAsk → Outcome
alive e = if e.outgoing_orders.crashed || e.outgoing_book.crashed then terminated else done e

-- Orders in the order in which the loop pops them, over one batch or many.
unfoldable pub run : List Order → BidAsk → Outcome
unfolding alive
run [] e = done e
run (o ∷ os) e = handle o e >>= alive >>= run os
