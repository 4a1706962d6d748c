-- ===== src/Matching/Tests.antt =====
-- Runs of the engine on a small book, and the theorems at these inputs.
use naoto_exchange.Common.{ℕ, ◌+◌, List, [], ◌∷◌, ◌++◌, ◌≡◌, refl, map, pos, ◌+ℤ◌, ◌*ℤ◌, neg}
use naoto_exchange.Wire.{Order, OrderAction, limit, buy, sell, execute}
use naoto_exchange.Matching.Level.{add_order, delete_order, dec_total_amount, unlink}
use naoto_exchange.Matching.Book
use naoto_exchange.Matching.Resting.{resting, total_of}
use naoto_exchange.Matching.BidAsk.{BidAsk, new_bid_ask, is_marketable, emit_report, emit_update}
use naoto_exchange.HashMap.{get_val, add_node, delete_node}
use naoto_exchange.Matching.BidAsk.Fill.{
  fill_level, fill_levels, trade, trade_report, delete_offer, set_best_price, bought_by, sold_by,
}
use naoto_exchange.Matching.BidAsk.Handlers.{
  Outcome, done, terminated, corrupted, run, handle, execute_order, fill_order, finish, cancel_rest,
  add_limit_order, acquire_and_add, add_node_order, place, cancel_order, cancel_node, reject_cancel,
  find_node, find_order, locked_by, improve_best_price, announce_added, start_filling,
}
use naoto_exchange.Matching.BidAsk.Uncrossed.{run-IsValid, new_bid_ask-IsValid}
use naoto_exchange.Matching.BidAsk.Sides.{IsValid}
use naoto_exchange.Matching.BidAsk.Emits.{Emits}
use naoto_exchange.Matching.BidAsk.Priority.{fill_order_priority, fill_order_conserves}
use naoto_exchange.Matching.BidAsk.Matched.{Matched}

abbrev start : BidAsk
start = new_bid_ask 1 (pos 100) 0 0 (10 ∷ 11 ∷ 12 ∷ []) 4

abbrev ask_order : ℕ → ℕ → ℕ → Order
ask_order id price amount = record {
  price = pos price;
  order_id = id;
  client_order_id = 0;
  client_id = 7;
  amount = amount;
  asset_id = 1;
  order_type = limit;
  side = sell;
  action = execute;
}

abbrev bid_order : ℕ → ℕ → ℕ → Order
bid_order id price amount = record (ask_order id price amount) { client_id = 8; side = buy }

abbrev asks : List Order
asks = ask_order 1 100 5 ∷ ask_order 2 101 5 ∷ []

abbrev engine_of : Outcome → BidAsk
engine_of (done e) = e
engine_of terminated = start
engine_of corrupted = start

-- The engine after a run, with all that the run computes through.
after_run : List Order → BidAsk
unfolding run handle execute_order fill_order finish cancel_rest add_limit_order acquire_and_add
    add_node_order place cancel_order cancel_node reject_cancel find_node find_order locked_by
    improve_best_price announce_added fill_level fill_levels trade trade_report delete_offer
    set_best_price bought_by sold_by new_bid_ask is_marketable emit_report emit_update get_val
    add_node delete_node Book.add_limit_order Book.delete_limit_order add_order delete_order
    dec_total_amount unlink ◌+ℤ◌ ◌*ℤ◌ neg
after_run os = engine_of (run os start)

-- Buy 7 at 101 or better: 5 at 100 and 2 at 101.
abbrev sweep_orders : List Order
sweep_orders = asks ++ bid_order 3 101 7 ∷ []

sweep_leaves : map (λ n. n.order.amount) (resting (after_run sweep_orders).ask) ≡ 3 ∷ []
unfolding after_run
sweep_leaves = refl

sweep_moves :
    map (λ r. r.bought_delta) (after_run sweep_orders).outgoing_orders.queued
    ≡ pos 0 ∷ pos 0 ∷ pos 5 ∷ pos 500 ∷ pos 2 ∷ pos 202 ∷ []
unfolding after_run
sweep_moves = refl

-- The order that is left over is canceled by its owner.
abbrev cancel_request : Order
cancel_request = record (ask_order 4 0 2) { action = OrderAction.cancel }

cancel_empties : resting (after_run (sweep_orders ++ cancel_request ∷ [])).ask ≡ []
unfolding after_run
cancel_empties = refl

two_asks : IsValid (after_run asks)
unfolding after_run
two_asks = run-IsValid asks start (after_run asks) (new_bid_ask-IsValid 1 (pos 100) 0 0 _ 4) refl

abbrev taker : Order
taker = bid_order 3 101 7

fill_order_priority_example :
    let e = after_run asks in
    Matched buy e.ask
      (start_filling buy taker e)
      (fill_levels buy e.ask (start_filling buy taker e))
fill_order_priority_example = fill_order_priority taker (after_run asks) two_asks

fill_order_conserves_example :
    let e = after_run asks in
    let r = fill_levels buy e.ask (start_filling buy taker e) in
    total_of (resting e.ask) + r.1.order.amount ≡ total_of (resting r.0) + 7
fill_order_conserves_example = fill_order_conserves taker (after_run asks) two_asks
